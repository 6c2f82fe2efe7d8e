-- ===== src/Chain/FromTail.antt =====
-- What `remove_matching_from_tail` does to a list: the last elements that hold a value go, up to a limit.
use invar.Prelude.{
  ℕ, ◌+◌, ◌<◌, ◌≡◌, ◌∙◌, refl, sym, ap, subst, Bool, true, false, Option, none, some, List, [], ◌∷◌,
  ◌++◌, All, length, Bytes, bytes_eq, ltb, leb, ◌==◌, ◌||◌, ◌&&◌, if◌then◌else◌, arith,
}
use mathlib.Core.List.{reverse, reverse_aux}
use invar.Prelude.Dicts.{lookup, has_key}
use invar.Chain.{
  ListNode, Linked, unlink, find_key, remove_from_tail, remove_matching_from_tail, ordered_keys,
}
use invar.Chain.Segments.{Element, first_key, last_key, node_of, Distinct, Stretch-append}
use invar.Chain.Represent.{Represents, with_ends, keys_of, ordered_keys-Represents}
use invar.Chain.Matches.{without_matching, unlink-Represents}
use invar.Chain.Loaded.{absent-has_key}
use invar.Chain.Thinned.{
  Thinned, nothing, reverse_aux-Thinned, without_matching-Thinned, find_key-Thinned, present_keys,
  reverse_aux-split, last_key-reverse, length-reverse_aux, reverse_keys, reverse_twice,
  All-reverse_aux, reverse-Distinct,
}

without_matching_full :
    (limit : ℕ) (value : Bytes) (count : ℕ) (xs : List Element)
    → 0 < limit
    → leb limit count ≡ true
    → without_matching limit value count xs ≡ xs
unfolding without_matching
without_matching_full limit value count [] some_limit full = refl
without_matching_full limit value count ((k, v) ∷ xs) some_limit full =
    let stays : (bytes_eq v value && (limit == 0 || ltb count limit)) ≡ false = ground arith in
    rw stays (ap (λ t. (k, v) ∷ t) (without_matching_full limit value count xs some_limit full))

-- What the loop leaves: a list for the elements, and how many are gone.
abbrev Leaves : ℕ → List Element → List Element → ℕ × Linked → Type 0
Leaves removed all rs p =
    Represents (with_ends p.1 rs) rs × (p.0 + length rs ≡ removed + length all)

round :
    (target : ℕ) (value : Bytes) (k : Bytes) (ks : List Bytes) (removed : ℕ) (ll : Linked)
    (n : ListNode)
    → lookup k ll.nodes ≡ some n
    → remove_from_tail target value (k ∷ ks) removed ll ≡ (
        if leb target removed
        then (removed, ll)
        else if bytes_eq n.value value
        then remove_from_tail target value ks (removed + 1) (unlink k n.prev n.next ll)
        else remove_from_tail target value ks removed ll)
unfolding remove_from_tail
round target value k ks removed ll n h = rw (remove_from_tail, h) refl

remove_from_tail-Leaves :
    (target : ℕ) (value : Bytes) (removed : ℕ) (zs ys : List Element) (ll : Linked)
    → 0 < target
    → Represents (with_ends ll (reverse_aux zs ys)) (reverse_aux zs ys)
    → Leaves removed
        (reverse_aux zs ys)
        (reverse_aux (without_matching target value removed zs) ys)
        (remove_from_tail target value (keys_of zs) removed ll)
remove_from_tail-Leaves target value removed [] ys ll positive r =
    unfold remove_from_tail without_matching in (r, refl)
remove_from_tail-Leaves target value removed ((k, v) ∷ zs) ys ll positive r =
    let all : List Element = reverse_aux zs ((k, v) ∷ ys) in
    let split : all ≡ reverse zs ++ (k, v) ∷ ys = reverse_aux-split zs [] ((k, v) ∷ ys) in
    let r' : Represents (with_ends ll (reverse zs ++ (k, v) ∷ ys)) (reverse zs ++ (k, v) ∷ ys) =
      subst (λ ws. Represents (with_ends ll ws) ws) split r in
    let (left, (here, right)) =
      Stretch-append ll.nodes none (reverse zs) ((k, v) ∷ ys) none r'.chained in
    let prev : Option Bytes = last_key none (reverse zs) in
    let next : Option Bytes = first_key ys none in
    let shorter = without_matching target value (removed + 1) zs in
    let taken =
      remove_from_tail-Leaves target value (removed + 1) zs ys (unlink k prev next ll) positive (
        subst (λ ws. Represents (with_ends (unlink k prev next ll) ws) ws)
          (sym (reverse_aux-split zs [] ys)) (unlink-Represents ll (reverse zs) k v ys r')) in
    let kept = remove_from_tail-Leaves target value removed zs ((k, v) ∷ ys) ll positive r in
    subst
      (Leaves removed all (reverse_aux (without_matching target value removed ((k, v) ∷ zs)) ys))
      (sym (round target value k (keys_of zs) removed ll (node_of (k, v) prev next) here))
      (by_tests (leb target removed) refl (bytes_eq v value) refl taken kept)
  where
    by_tests :
        (full : Bool)
        → leb target removed ≡ full
        → (matches : Bool) → bytes_eq v value ≡ matches
        → Leaves
            (removed + 1)
            (reverse_aux zs ys)
            (reverse_aux (without_matching target value (removed + 1) zs) ys)
            (remove_from_tail target value
              (keys_of zs)
              (removed + 1)
              (unlink k (last_key none (reverse zs)) (first_key ys none) ll))
        → Leaves removed
            (reverse_aux zs ((k, v) ∷ ys))
            (reverse_aux (without_matching target value removed zs) ((k, v) ∷ ys))
            (remove_from_tail target value (keys_of zs) removed ll)
        → Leaves removed
            (reverse_aux zs ((k, v) ∷ ys))
            (reverse_aux (without_matching target value removed ((k, v) ∷ zs)) ys)
            (if full
              then (removed, ll)
              else if matches
              then remove_from_tail target value
                  (keys_of zs)
                  (removed + 1)
                  (unlink k (last_key none (reverse zs)) (first_key ys none) ll)
              else remove_from_tail target value (keys_of zs) removed ll)
    by_tests true full matches m taken kept =
        subst
          (λ ws. Leaves removed (reverse_aux zs ((k, v) ∷ ys)) (reverse_aux ws ys) (removed, ll))
          (sym (without_matching_full target value removed ((k, v) ∷ zs) positive full)) (r, refl)
    by_tests false room true m (represents, total) kept =
        let goes : (bytes_eq v value && (target == 0 || ltb removed target)) ≡ true =
          ground arith in
        unfold without_matching in
        rw goes (
          represents,
          omega (arith, total, length-reverse_aux zs ys, length-reverse_aux zs ((k, v) ∷ ys)),
        )
    by_tests false room false m taken kept =
        let stays : (bytes_eq v value && (target == 0 || ltb removed target)) ≡ false =
          ground arith in
        unfold without_matching in rw stays kept

-- The elements that stay where the last ones that hold the value go, up to the limit.
abbrev pub without_last : ℕ → Bytes → List Element → List Element
without_last limit value xs = reverse (without_matching limit value 0 (reverse xs))

without_last-Thinned :
    (limit : ℕ) (value : Bytes) (xs : List Element) → Thinned (without_last limit value xs) xs
without_last-Thinned limit value xs =
    subst (Thinned (without_last limit value xs)) (reverse_twice xs)
      (reverse_aux-Thinned (without_matching-Thinned limit value 0 (reverse xs)) nothing)

-- The two ends that are found among the old keys are those of the elements that are left.
ends_found :
    (ll : Linked) (rs xs : List Element)
    → Represents ll rs
    → Thinned rs xs
    → Distinct xs
    → find_key (λ k. has_key k ll.nodes) (keys_of xs) ≡ first_key rs none
ends_found ll rs xs r thin d =
    find_key-Thinned (λ k. has_key k ll.nodes) thin d (present_keys ll.nodes none rs none r.chained)
      (λ k fresh. absent-has_key k ll.nodes (r.whole k fresh))

tail_found :
    (ll : Linked) (kept xs : List Element)
    → Represents ll (reverse kept)
    → Thinned kept (reverse xs)
    → Distinct xs
    → find_key (λ k. has_key k ll.nodes) (reverse (keys_of xs)) ≡ last_key none (reverse kept)
tail_found ll kept xs r thin d =
    ap (find_key (λ k. has_key k ll.nodes)) (reverse_keys xs)
    ∙ find_key-Thinned (λ k. has_key k ll.nodes) thin (reverse-Distinct xs d)
        (subst (All (λ (x : Element). has_key x.0 ll.nodes ≡ true)) (reverse_twice kept) (
          All-reverse_aux (λ x. has_key x.0 ll.nodes ≡ true) (reverse kept) []
            (present_keys ll.nodes none (reverse kept) none r.chained) tt))
        (λ k fresh.
          absent-has_key k ll.nodes
            (r.whole k (All-reverse_aux (λ x. bytes_eq k x.0 ≡ false) kept [] fresh tt)))
    ∙ sym (last_key-reverse kept)

-- `remove_matching_from_tail` on a list that stands for a sequence takes from it the last elements that
-- hold the value, up to the target, which is not zero, and answers how many those are.
pub remove_matching_from_tail-Represents :
    (ll : Linked) (xs : List Element) (target : ℕ) (value : Bytes)
    → Represents ll xs
    → 0 < target
    → Represents (remove_matching_from_tail target value ll).1 (without_last target value xs)
      × ((remove_matching_from_tail target value ll).0 + length (without_last target value xs)
          ≡ length xs)
unfolding remove_matching_from_tail
remove_matching_from_tail-Represents ll xs target value r positive =
    let kept : List Element = without_matching target value 0 (reverse xs) in
    let rs : List Element = without_last target value xs in
    let r0 : Represents (with_ends ll xs) xs = record {
      chained = r.chained;
      distinct = r.distinct;
      whole = r.whole;
      at_head = refl;
      at_tail = refl;
      counted = r.counted;
      sound = r.sound;
    } in
    let keys : reverse (ordered_keys ll) ≡ keys_of (reverse xs) =
      ap reverse (ordered_keys-Represents ll xs r) ∙ reverse_keys xs in
    let (represents, total) : Leaves 0 xs rs
        (remove_from_tail target value (reverse (ordered_keys ll)) 0 ll) =
      subst (λ ks. Leaves 0 xs rs (remove_from_tail target value ks 0 ll)) (sym keys)
        (subst (λ ws. Leaves 0 ws rs (remove_from_tail target value (keys_of (reverse xs)) 0 ll))
          (reverse_twice xs)
          (remove_from_tail-Leaves target value 0 (reverse xs) [] ll positive
            (subst (λ ws. Represents (with_ends ll ws) ws) (sym (reverse_twice xs)) r0))) in
    let ll' : Linked = (remove_from_tail target value (reverse (ordered_keys ll)) 0 ll).1 in
    (
      record {
        chained = represents.chained;
        distinct = represents.distinct;
        whole = represents.whole;
        at_head =
            ap (find_key (λ k. has_key k ll'.nodes)) (ordered_keys-Represents ll xs r)
            ∙ ends_found (with_ends ll' rs) rs xs represents (without_last-Thinned target value xs)
                r.distinct;
        at_tail =
            ap (λ ks. find_key (λ k. has_key k ll'.nodes) (reverse ks))
              (ordered_keys-Represents ll xs r)
            ∙ tail_found (with_ends ll' rs) kept xs represents
                (without_matching-Thinned target value 0 (reverse xs)) r.distinct;
        counted = represents.counted;
        sound = represents.sound;
      },
      omega (arith, total),
    )
