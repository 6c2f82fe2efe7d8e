-- ===== src/Chain/Matches.antt =====
-- What `remove_matching` does to a list: the elements that hold a value go, up to a limit.
use invar.Prelude.{
  ℕ, zero, suc, ◌+◌, ◌≤◌, ◌≡◌, ◌∙◌, refl, sym, ap, subst, Bool, true, false, Option, none, some,
  List, [], ◌∷◌, ◌++◌, length, length-append, append-nil, append_assoc, Bytes, bytes_eq, ltb, ◌==◌,
  ◌||◌, ◌&&◌, if◌then◌else◌, arith,
}
use invar.Prelude.Dicts.{Dict, erase}
use invar.Chain.{
  ListNode, Linked, set_prev, set_next, end_unless, holds_value, unlink, Removal, remove_loop,
  remove_matching,
}
use invar.Chain.Segments.{
  Element, first_key, last_key, node_of, Stretch-erase, Stretch-set_prev, Stretch-set_next,
  Stretch-set_prev_first, Stretch-set_next_last, Stretch-append, append-Stretch,
}
use invar.Chain.Represent.{
  erase-IsSound, set_prev-IsSound, set_next-IsSound, Represents, with_ends, last_key-snoc,
  IsFresh-append, append-IsFresh, Distinct-append, Distinct-middle, absent-set_prev,
  absent-set_next, absent-erase, next_of_found, length-Stretch,
}
use invar.Chain.Pivot.{holds_value_found}

-- A node of the middle goes: its neighbours are linked to each other.
pub unlink-Represents :
    (ll : Linked) (xs : List Element) (k v : Bytes) (ys : List Element)
    → Represents (with_ends ll (xs ++ (k, v) ∷ ys)) (xs ++ (k, v) ∷ ys)
    → Represents
        (with_ends (unlink k (last_key none xs) (first_key ys none) ll) (xs ++ ys))
        (xs ++ ys)
unfolding unlink
unlink-Represents ll xs k v ys r =
    let prev : Option Bytes = last_key none xs in
    let next : Option Bytes = first_key ys none in
    let m1 : Dict ListNode = set_next prev next ll.nodes in
    let m2 : Dict ListNode = set_prev next prev m1 in
    let (fx, fy, d) = Distinct-middle xs k v ys r.distinct in
    let (dx, dy, before, behind) = Distinct-append xs ys d in
    let (left, (here, right)) = Stretch-append ll.nodes none xs ((k, v) ∷ ys) none r.chained in
    record {
      chained =
          append-Stretch (erase k m2) none xs ys none
            (Stretch-erase k m2 none xs next fx (
              Stretch-set_prev next prev m1 none xs next before
                (Stretch-set_next_last next ll.nodes none xs (some k) dx left)))
            (Stretch-erase k m2 prev ys none fy (
              Stretch-set_prev_first prev m1 (some k) ys none dy
                (Stretch-set_next prev next ll.nodes (some k) ys none behind right)));
      distinct = d;
      sound =
          erase-IsSound k m2
            (set_prev-IsSound next prev m1 (set_next-IsSound prev next ll.nodes r.sound));
      whole = λ j h.
          let (a, b) = IsFresh-append j xs ys h in
          absent-erase k j m2 (λ ne. absent-set_prev next prev j m1 (
            absent-set_next prev next j ll.nodes
              (r.whole j (append-IsFresh j xs ((k, v) ∷ ys) a (ne, b)))));
      at_head = refl;
      at_tail = refl;
      counted =
          let size : ll.size ≡ length (xs ++ (k, v) ∷ ys) = r.counted in
          omega (arith, size, length-append xs ys, length-append xs ((k, v) ∷ ys));
    }

-- The elements that stay where those that hold the value go, up to the limit, or all for a limit of
-- zero; `count` have gone before.
unfoldable pub without_matching : ℕ → Bytes → ℕ → List Element → List Element
without_matching limit value count [] = []
without_matching limit value count ((k, v) ∷ xs) =
    let shorter = without_matching limit value (count + 1) xs in
    let longer = without_matching limit value count xs in
    if bytes_eq v value && (limit == 0 || ltb count limit) then shorter else (k, v) ∷ longer

pub without_matching_le :
    (limit : ℕ) (value : Bytes) (count : ℕ) (xs : List Element)
    → length (without_matching limit value count xs) ≤ length xs
unfolding without_matching
without_matching_le limit value count [] = omega arith
without_matching_le limit value count ((k, v) ∷ xs) = ground (
  arith,
  without_matching_le limit value (count + 1) xs,
  without_matching_le limit value count xs,
)

-- One round of the loop at a node, by its link and by the test of its value.
abbrev round : ℕ → ℕ → Bytes → Bytes → Removal → Linked → Option Bytes → Bool → Removal × Linked
round rounds limit value k r ll next holds =
    if holds && (limit == 0 || ltb r.count limit)
    then remove_loop rounds limit value next (record r { count = r.count + 1 })
        (unlink k r.prev next ll)
    else remove_loop rounds limit value next
        (record r { new_head = end_unless r.new_head (some k) r.new_head; prev = some k }) ll

abbrev seen : ℕ → List Element → Removal
seen count xs = record { count = count; new_head = first_key xs none; prev = last_key none xs }

-- What the loop leaves behind: the list with its ends set, and the number of removals.
Left : ℕ → List Element → List Element → Removal × Linked → Type 0
Left count xs ys (r, ll) =
    Represents (record ll { head = r.new_head; tail = r.prev }) ys
    × (r.count + length ys ≡ count + length xs)

Left-taken :
    (count : ℕ) (xs : List Element) (y : Element) (ys zs : List Element) (out : Removal × Linked)
    → Left (count + 1) (xs ++ ys) zs out
    → Left count (xs ++ y ∷ ys) zs out
unfolding Left
Left-taken count xs y ys zs (r, ll) (represents, total) =
    (represents, omega (arith, total, length-append xs ys, length-append xs (y ∷ ys)))

seen_snoc :
    (count : ℕ) (xs : List Element) (k v : Bytes)
    → seen count (xs ++ (k, v) ∷ []) ≡ (
        let r : Removal = record {
          count = count;
          new_head = end_unless (first_key xs none) (some k) (first_key xs none);
          prev = some k;
        } in
        r)
seen_snoc count [] k v = refl
seen_snoc count ((j, w) ∷ xs) k v =
    ap
      (λ (o : Option Bytes).
        let r : Removal = record { count = count; new_head = some j; prev = o } in r)
      (last_key-snoc (some j) xs k v)

Left-if :
    (b : Bool) (count : ℕ) (all xs shorter : List Element) (y : Element) (longer : List Element)
    (taken kept : Removal × Linked)
    → Left count all (xs ++ shorter) taken
    → Left count all (xs ++ y ∷ longer) kept
    → Left count all (xs ++ (if b then shorter else y ∷ longer)) (if b then taken else kept)
Left-if true count all xs shorter y longer taken kept a b = a
Left-if false count all xs shorter y longer taken kept a b = b

snoc_assoc :
    (xs : List Element) (y : Element) (zs : List Element) → (xs ++ y ∷ []) ++ zs ≡ xs ++ y ∷ zs
snoc_assoc xs y zs = append_assoc xs (y ∷ []) zs

-- The list of the elements kept so far grows by one.
Left-kept :
    (rounds limit : ℕ) (value : Bytes) (count : ℕ) (xs : List Element) (k v : Bytes)
    (ys longer : List Element) (ll : Linked)
    → Left count
        ((xs ++ (k, v) ∷ []) ++ ys)
        ((xs ++ (k, v) ∷ []) ++ longer)
        (remove_loop rounds limit value (first_key ys none) (seen count (xs ++ (k, v) ∷ [])) ll)
    → Left count (xs ++ (k, v) ∷ ys) (xs ++ (k, v) ∷ longer) (
        remove_loop rounds limit value
          (first_key ys none)
          (record {
            count = count;
            new_head = end_unless (first_key xs none) (some k) (first_key xs none);
            prev = some k;
          })
          ll)
Left-kept rounds limit value count xs k v ys longer ll h =
    subst
      (λ (r : Removal).
        Left count (xs ++ (k, v) ∷ ys) (xs ++ (k, v) ∷ longer)
          (remove_loop rounds limit value (first_key ys none) r ll))
      (seen_snoc count xs k v)
      (rw (sym (snoc_assoc xs (k, v) ys), sym (snoc_assoc xs (k, v) longer)) h)

Left-done :
    (count : ℕ) (xs : List Element) (ll : Linked)
    → Represents (with_ends ll (xs ++ [])) (xs ++ [])
    → Left count (xs ++ []) (xs ++ []) (seen count xs, ll)
unfolding Left
Left-done count xs ll r =
    (subst (λ (zs : List Element). Represents (with_ends ll zs) (xs ++ [])) (append-nil xs) r, refl)

remove_loop-Left :
    (rounds limit : ℕ) (value : Bytes) (count : ℕ) (xs ys : List Element) (ll : Linked)
    → length ys ≤ rounds
    → Represents (with_ends ll (xs ++ ys)) (xs ++ ys)
    → Left count
        (xs ++ ys)
        (xs ++ without_matching limit value count ys)
        (remove_loop rounds limit value (first_key ys none) (seen count xs) ll)
unfolding remove_loop without_matching
remove_loop-Left zero limit value count xs [] ll enough r = Left-done count xs ll r
remove_loop-Left (suc rounds) limit value count xs [] ll enough r = Left-done count xs ll r
remove_loop-Left zero limit value count xs (y ∷ ys) ll enough r = absurd (omega arith)
remove_loop-Left (suc rounds) limit value count xs ((k, v) ∷ ys) ll enough r =
    let all : List Element = xs ++ (k, v) ∷ ys in
    let next : Option Bytes = first_key ys none in
    let (left, (here, right)) = Stretch-append ll.nodes none xs ((k, v) ∷ ys) none r.chained in
    let n : ListNode = node_of (k, v) (last_key none xs) next in
    let ll' : Linked = unlink k (last_key none xs) next ll in
    let longer : List Element = without_matching limit value count ys in
    let taken : Left count all (xs ++ without_matching limit value (count + 1) ys)
        (remove_loop rounds limit value next (seen (count + 1) xs) ll') =
      Left-taken count xs (k, v) ys (xs ++ without_matching limit value (count + 1) ys)
        (remove_loop rounds limit value next (seen (count + 1) xs) ll')
        (remove_loop-Left rounds limit value (count + 1) xs ys ll' (omega arith)
          (unlink-Represents ll xs k v ys r)) in
    let kept = remove_loop-Left rounds limit value count (xs ++ (k, v) ∷ []) ys ll (omega arith) (
      subst (λ (zs : List Element). Represents (with_ends ll zs) zs) (sym (snoc_assoc xs (k, v) ys))
        r) in
    subst
      (Left count all (
        xs
        ++ (if bytes_eq v value && (limit == 0 || ltb count limit)
            then without_matching limit value (count + 1) ys
            else (k, v) ∷ longer)))
      (sym (
        ap (λ o. round rounds limit value k (seen count xs) ll o (holds_value value k ll.nodes))
          (next_of_found k n ll.nodes here)
        ∙ ap (round rounds limit value k (seen count xs) ll next)
            (holds_value_found value k n ll.nodes here)))
      (Left-if (bytes_eq v value && (limit == 0 || ltb count limit)) count all xs
        (without_matching limit value (count + 1) ys) (k, v) longer
        (remove_loop rounds limit value next (seen (count + 1) xs) ll')
        (remove_loop rounds limit value next
          (record {
            count = count;
            new_head = end_unless (first_key xs none) (some k) (first_key xs none);
            prev = some k;
          })
          ll)
        taken (Left-kept rounds limit value count xs k v ys longer ll kept))

-- `remove_matching` on a list that stands for a sequence takes from it the elements that hold the
-- value, the first ones up to the limit, or all of them for a limit of zero, and answers how many
-- those are.
pub remove_matching-Represents :
    (ll : Linked) (xs : List Element) (limit : ℕ) (value : Bytes)
    → Represents ll xs
    → Represents (remove_matching limit value ll).1 (without_matching limit value 0 xs)
      × ((remove_matching limit value ll).0 + length (without_matching limit value 0 xs)
          ≡ length xs)
unfolding remove_matching Left
remove_matching-Represents ll xs limit value r =
    let r' : Represents (with_ends ll xs) xs = record {
      chained = r.chained;
      distinct = r.distinct;
      whole = r.whole;
      at_head = refl;
      at_tail = refl;
      counted = r.counted;
      sound = r.sound;
    } in
    let kept : List Element = without_matching limit value 0 xs in
    let (represents, total) : Left 0 xs kept
        (remove_loop (length ll.nodes) limit value ll.head (seen 0 []) ll) =
      subst
        (λ (o : Option Bytes).
          Left 0 xs kept (remove_loop (length ll.nodes) limit value o (seen 0 []) ll))
        (sym r.at_head)
        (remove_loop-Left (length ll.nodes) limit value 0 [] xs ll
          (length-Stretch ll.nodes none xs none r.distinct r.chained) r') in
    (represents, omega (arith, total))
