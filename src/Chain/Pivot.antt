-- ===== src/Chain/Pivot.antt =====
-- What `insert` does to a list: a new element beside the first one that holds the pivot.
use invar.Prelude.{
  suc, ◌+◌, ◌%◌, ◌^◌, ◌<◌, ◌≡◌, ◌∙◌, refl, sym, ap, subst, Bool, true, false, Option, none, some,
  List, [], ◌∷◌, ◌++◌, All, length, append_assoc, Bytes, bytes_eq, Bool-cases, inl, inr, ◌⊎◌,
  if◌then◌else◌,
}
use mathlib.Core.Option
use invar.Prelude.Dicts.{Dict, lookup, put, lookup-put_ne}
use invar.Chain.{
  ListNode, Linked, set_prev, set_next, end_unless, holds_value, find_key, link_before, link_after,
  insert_at, insert_found, insert_beside,
}
use invar.Chain.Segments.{Element, first_key, last_key, node_of, Stretch, IsFresh, Stretch-append}
use invar.Chain.Represent.{
  put-IsSound, set_prev-IsSound, set_next-IsSound, Represents, keys_of, last_key-snoc,
  absent-set_prev, absent-set_next, ordered_keys-Represents,
}
use invar.Chain.Insertion.{fresh_node, grown_map, Joined-before, Joined-after, Joined-Represents}

link_before-Represents :
    (ll : Linked) (xs : List Element) (k v : Bytes) (ys : List Element) (key value : Bytes)
    → Represents ll (xs ++ (k, v) ∷ ys)
    → IsFresh key (xs ++ (k, v) ∷ ys)
    → suc (length (xs ++ (k, v) ∷ ys)) < 2 ^ 32
    → Represents
        (link_before key k (node_of (k, v) (last_key none xs) (first_key ys none)) value ll)
        (xs ++ (key, value) ∷ (k, v) ∷ ys)
unfolding link_before
link_before-Represents ll xs k v ys key value r fresh small =
    Joined-Represents ll
      (set_prev (some k) (some key) (
        set_next (last_key none xs) (some key)
          (grown_map ll.nodes xs (key, value) ((k, v) ∷ ys) r.chained r.distinct fresh)))
      xs (key, value) ((k, v) ∷ ys) r fresh small
      (Joined-before ll.nodes xs (key, value) ((k, v) ∷ ys) r.chained r.distinct fresh)
      (λ j ne h.
        let node : ListNode = fresh_node xs (key, value) ((k, v) ∷ ys) in
        absent-set_prev (some k) (some key) j
          (set_next (last_key none xs) (some key) (put key node ll.nodes))
          (absent-set_next (last_key none xs) (some key) j (put key node ll.nodes)
            (lookup-put_ne key j node ll.nodes ne ∙ h)))
      (let node : ListNode = fresh_node xs (key, value) ((k, v) ∷ ys) in
        let with_node : Dict ListNode = put key node ll.nodes in
        set_prev-IsSound (some k) (some key) (set_next (last_key none xs) (some key) with_node) (
          set_next-IsSound (last_key none xs) (some key) with_node
            (put-IsSound node ll.nodes r.sound)))

link_after-Represents :
    (ll : Linked) (xs : List Element) (k v : Bytes) (ys : List Element) (key value : Bytes)
    → Represents ll (xs ++ (k, v) ∷ ys)
    → IsFresh key (xs ++ (k, v) ∷ ys)
    → suc (length (xs ++ (k, v) ∷ ys)) < 2 ^ 32
    → Represents
        (link_after key k (node_of (k, v) (last_key none xs) (first_key ys none)) value ll)
        (xs ++ (k, v) ∷ (key, value) ∷ ys)
unfolding link_after
link_after-Represents ll xs k v ys key value r fresh small =
    let front : List Element = xs ++ (k, v) ∷ [] in
    let same : front ++ ys ≡ xs ++ (k, v) ∷ ys = append_assoc xs ((k, v) ∷ []) ys in
    let r' : Represents ll (front ++ ys) = subst (Represents ll) (sym same) r in
    let fresh' : IsFresh key (front ++ ys) = subst (IsFresh key) (sym same) fresh in
    let small' : suc (length (front ++ ys)) < 2 ^ 32 =
      subst (λ (zs : List Element). suc (length zs) < 2 ^ 32) (sym same) small in
    let at_k : last_key none front ≡ some k = last_key-snoc none xs k v in
    let node : ListNode = fresh_node front (key, value) ys in
    let done =
      Joined-Represents ll
        (set_next (last_key none front) (some key)
          (set_prev (first_key ys none) (some key) (put key node ll.nodes)))
        front (key, value) ys r' fresh' small'
        (Joined-after ll.nodes front (key, value) ys r'.chained r'.distinct fresh')
        (λ j ne h.
          absent-set_next (last_key none front) (some key) j
            (set_prev (first_key ys none) (some key) (put key node ll.nodes))
            (absent-set_prev (first_key ys none) (some key) j (put key node ll.nodes)
              (lookup-put_ne key j node ll.nodes ne ∙ h)))
        (set_next-IsSound (last_key none front) (some key)
          (set_prev (first_key ys none) (some key) (put key node ll.nodes))
          (set_prev-IsSound (first_key ys none) (some key) (put key node ll.nodes)
            (put-IsSound node ll.nodes r.sound))) in
    subst
      (λ (zs : List Element).
        Represents
          (link_after key k (node_of (k, v) (last_key none xs) (first_key ys none)) value ll) zs)
      (append_assoc xs ((k, v) ∷ []) ((key, value) ∷ ys))
      (subst
        (λ (o : Option Bytes).
          Represents
            (record ll {
              size = (ll.size + 1) % 2 ^ 32;
              head = end_unless o (some key) ll.head;
              tail = end_unless (first_key ys none) (some key) ll.tail;
              nodes = set_next o (some key) (
                  set_prev (first_key ys none) (some key)
                    (put key (node_of (key, value) o (first_key ys none)) ll.nodes));
            })
            (front ++ (key, value) ∷ ys))
        at_k done)

-- The sequence with an element beside the first one that holds the pivot.
pub insert_value : Bool → Bytes → Element → List Element → Option (List Element)
insert_value before pivot x [] = none
insert_value before pivot x ((k, v) ∷ ys) =
    if bytes_eq v pivot
    then some (if before then x ∷ (k, v) ∷ ys else (k, v) ∷ x ∷ ys)
    else Option.map (λ (zs : List Element). (k, v) ∷ zs) (insert_value before pivot x ys)

-- Where the first element that holds the pivot stands, if one does.
record Found (before : Bool) (pivot : Bytes) (x : Element) (test : Bytes → Bool) (xs : List Element)
    : Type 0 where
  left : List Element
  at : Element
  right : List Element
  split : xs ≡ left ++ at ∷ right
  key_found : find_key test (keys_of xs) ≡ some at.0
  grown_to :
      insert_value before pivot x xs
      ≡ some (left ++ (if before then x ∷ at ∷ right else at ∷ x ∷ right))

search :
    (before : Bool) (pivot : Bytes) (x : Element) (test : Bytes → Bool) (xs : List Element)
    → All (λ (y : Element). test y.0 ≡ bytes_eq y.1 pivot) xs
    → ((find_key test (keys_of xs) ≡ none) × (insert_value before pivot x xs ≡ none))
      ⊎ Found before pivot x test xs
unfolding find_key insert_value
search before pivot x test [] h = inl (refl, refl)
search before pivot x test ((k, v) ∷ ys) (e, h) = elim (Bool-cases (bytes_eq v pivot)) [
  | inl same ↦ inr record {
    left = [];
    at = (k, v);
    right = ys;
    split = refl;
    key_found = rw (e ∙ same) refl;
    grown_to = rw same (elim before [ true ↦ refl | false ↦ refl ]);
  }
  | inr other ↦ elim (search before pivot x test ys h) [
    | inl (a, b) ↦ inl (rw (e ∙ other) a, rw other (rw b refl))
    | inr f ↦ inr record {
      left = (k, v) ∷ f.left;
      at = f.at;
      right = f.right;
      split = ap (λ t. (k, v) ∷ t) f.split;
      key_found = rw (e ∙ other) f.key_found;
      grown_to = rw other (rw f.grown_to refl);
    }
  ]
]

-- The outcome of an insertion: nothing for a pivot that is not there, else the longer sequence.
pub Inserted : Option (List Element) → Linked → Bool × Linked → Type 0
Inserted none ll out = out ≡ (false, ll)
Inserted (some ys) ll out = (out.0 ≡ true) × Represents out.1 ys

pub holds_value_found :
    (value k : Bytes) (n : ListNode) (m : Dict ListNode)
    → lookup k m ≡ some n
    → holds_value value k m ≡ bytes_eq n.value value
unfolding holds_value
holds_value_found value k n m e = rw (holds_value, e) refl

pub holds_value-Stretch :
    (m : Dict ListNode) (prev : Option Bytes) (xs : List Element) (next : Option Bytes)
    (value : Bytes)
    → Stretch m prev xs next
    → All (λ (y : Element). holds_value value y.0 m ≡ bytes_eq y.1 value) xs
holds_value-Stretch m prev [] next value h = tt
holds_value-Stretch m prev ((k, v) ∷ xs) next value (here, rest) = (
  holds_value_found value k (node_of (k, v) prev (first_key xs next)) m here,
  holds_value-Stretch m (some k) xs next value rest,
)

placed :
    (ll : Linked) (before : Bool) (xs : List Element) (y : Element) (ys : List Element)
    (key value : Bytes)
    → Represents ll (xs ++ y ∷ ys)
    → IsFresh key (xs ++ y ∷ ys)
    → suc (length (xs ++ y ∷ ys)) < 2 ^ 32
    → Inserted
        (some (xs ++ (if before then (key, value) ∷ y ∷ ys else y ∷ (key, value) ∷ ys)))
        ll
        (insert_found key before value ll (some y.0))
unfolding Inserted insert_found insert_at
placed ll true xs (k, v) ys key value r fresh small =
    let (left, right) = Stretch-append ll.nodes none xs ((k, v) ∷ ys) none r.chained in
    rw right.0 (refl, link_before-Represents ll xs k v ys key value r fresh small)
placed ll false xs (k, v) ys key value r fresh small =
    let (left, right) = Stretch-append ll.nodes none xs ((k, v) ∷ ys) none r.chained in
    rw right.0 (refl, link_after-Represents ll xs k v ys key value r fresh small)

-- `insert` on a list that stands for a sequence puts the new element before or after the first one
-- that holds the pivot and answers true, or answers false and changes nothing where none does. The
-- new key is none of the list's, and the length fits in 32 bits.
pub insert_beside-Represents :
    (ll : Linked) (xs : List Element) (before : Bool) (pivot key value : Bytes)
    → Represents ll xs
    → IsFresh key xs
    → suc (length xs) < 2 ^ 32
    → Inserted
        (insert_value before pivot (key, value) xs)
        ll
        (insert_beside key before pivot value ll)
unfolding insert_beside
insert_beside-Represents ll xs before pivot key value r fresh small =
    let test : Bytes → Bool = λ k. holds_value pivot k ll.nodes in
    subst (Inserted (insert_value before pivot (key, value) xs) ll)
      (ap (λ ks. insert_found key before value ll (find_key test ks))
        (sym (ordered_keys-Represents ll xs r)))
      (elim (search before pivot (key, value) test xs
        (holds_value-Stretch ll.nodes none xs none pivot r.chained)) [
          | inl (a, b) ↦ rw (a, b) (unfold Inserted insert_found in refl)
          | inr f ↦
              rw (f.key_found, f.grown_to)
                (placed ll before f.left f.at f.right key value (subst (Represents ll) f.split r)
                  (subst (IsFresh key) f.split fresh)
                  (subst (λ (zs : List Element). suc (length zs) < 2 ^ 32) f.split small))
        ])
