-- ===== src/Chain/Commands/Reads.antt =====
-- What the reading commands answer on a list that was persisted.
use invar.Prelude.{
  ℕ, zero, suc, ◌+◌, ◌-◌, ◌^◌, ◌≤◌, ◌<◌, ◌≡◌, ◌∙◌, refl, sym, ap, false, Option, none, some, List,
  [], ◌∷◌, length, take, drop, get_elem?, Result, ok, ◌>>=◌, Bytes, bytes_eq, arith,
}
use invar.Prelude.Dicts.{Dict, lookup}
use invar.Prelude.Int.{ℤ}
use invar.Kv.{Tx, Item, DbError}
use invar.Namespace.{ElementPrefix, resolve_prefix}
use invar.Namespace.Laws.{ReadsBack}
use invar.Chain.{ListNode, Linked, ordered_keys}
use invar.Chain.Segments.{Element, first_key, node_of, Stretch}
use invar.Chain.Represent.{Represents, keys_of, values_of, next_of_found, ordered_keys-Represents}
use invar.Chain.Store.{node_key, type_list, sentinel_bytes, load_list, persist_list}
use invar.Chain.Loaded.{AllKeys}
use invar.Chain.Commands.Ranges.{
  slice, at_index, at_index_found, slice_empty, slice_found, Inside, list_range-Inside,
}
use invar.Chain.RoundTrip.{sentinel_kept, load_list-persist_list}
use invar.Chain.Commands.{
  on_missing, list_range, list_index, key_at, value_of, values_between, lrange, lindex,
}

pub length-values : (xs : List Element) → length (values_of xs) ≡ length xs
length-values [] = refl
length-values (x ∷ xs) = omega (arith, length-values xs)

value_found :
    (m : Dict ListNode) (k : Bytes) (n : ListNode)
    → lookup k m ≡ some n
    → value_of (some k) m ≡ some n.value
unfolding value_of
value_found m k n h = rw (value_of, h) refl

value_at :
    (m : Dict ListNode) (prev : Option Bytes) (xs : List Element) (i : ℕ)
    → Stretch m prev xs none
    → value_of (get_elem? (keys_of xs) i) m ≡ get_elem? (values_of xs) i
value_at m prev [] i h = unfold value_of in refl
value_at m prev ((k, v) ∷ xs) zero (here, h) =
    value_found m k (node_of (k, v) prev (first_key xs none)) here
value_at m prev ((k, v) ∷ xs) (suc i) (here, h) = value_at m (some k) xs i h

-- A range loses its first element.
abbrev onto : Option Bytes → List Bytes → List Bytes
onto none rest = rest
onto (some v) rest = v ∷ rest

take-drop_step :
    (n i : ℕ) (vs : List Bytes)
    → onto (get_elem? vs i) (take n (drop (suc i) vs)) ≡ take (suc n) (drop i vs)
take-drop_step zero zero [] = refl
take-drop_step (suc n) zero [] = refl
take-drop_step zero (suc i) [] = refl
take-drop_step (suc n) (suc i) [] = refl
take-drop_step n zero (v ∷ vs) = refl
take-drop_step n (suc i) (v ∷ vs) = take-drop_step n i vs

values_between_round :
    (rounds i : ℕ) (keys : List Bytes) (m : Dict ListNode)
    → values_between (suc rounds) i keys m
      ≡ onto (value_of (get_elem? keys i) m) (values_between rounds (i + 1) keys m)
unfolding values_between
values_between_round rounds i keys m = go (value_of (get_elem? keys i) m) refl
  where
    go :
        (o : Option Bytes)
        → value_of (get_elem? keys i) m ≡ o
        → (elim (value_of (get_elem? keys i) m) [
          | none ↦ values_between rounds (i + 1) keys m
          | some value ↦ value ∷ values_between rounds (i + 1) keys m
        ])
          ≡ onto (value_of (get_elem? keys i) m) (values_between rounds (i + 1) keys m)
    go none e = rw e refl
    go (some v) e = rw e refl

values_between-Stretch :
    (rounds i : ℕ) (m : Dict ListNode) (xs : List Element)
    → Stretch m none xs none
    → values_between rounds i (keys_of xs) m ≡ take rounds (drop i (values_of xs))
values_between-Stretch zero i m xs h = unfold values_between in refl
values_between-Stretch (suc rounds) i m xs h =
    let next : i + 1 ≡ suc i = omega arith in
    values_between_round rounds i (keys_of xs) m
    ∙ ap (λ o. onto o (values_between rounds (i + 1) (keys_of xs) m)) (value_at m none xs i h)
    ∙ ap (onto (get_elem? (values_of xs) i)) (
        values_between-Stretch rounds (i + 1) m xs h
        ∙ ap (λ (j : ℕ). take rounds (drop j (values_of xs))) next)
    ∙ take-drop_step rounds i (values_of xs)

key_at-Stretch :
    (i : ℕ) (m : Dict ListNode) (prev : Option Bytes) (xs : List Element)
    → Stretch m prev xs none
    → value_of (key_at i (first_key xs none) m) m ≡ get_elem? (values_of xs) i
unfolding key_at
key_at-Stretch zero m prev [] h = unfold value_of in refl
key_at-Stretch (suc i) m prev [] h = unfold value_of in refl
key_at-Stretch zero m prev ((k, v) ∷ xs) (here, h) =
    value_found m k (node_of (k, v) prev (first_key xs none)) here
key_at-Stretch (suc i) m prev ((k, v) ∷ xs) (here, h) =
    ap (λ (o : Option Bytes). value_of (key_at i o m) m)
      (next_of_found k (node_of (k, v) prev (first_key xs none)) m here)
    ∙ key_at-Stretch i m (some k) xs h

range_answer : Option (ℕ × ℕ) → List Bytes → Dict ListNode → List Bytes
range_answer o keys m = elim o [
  | none ↦ []
  | some (first, last) ↦ values_between (last - first + 1) first keys m
]

slice_of : Option (ℕ × ℕ) → List Bytes → List Bytes
slice_of o vs = elim o [ none ↦ [] | some (first, last) ↦ take (last - first + 1) (drop first vs) ]

slice_of-slice :
    (start stop : ℤ) (vs : List Bytes)
    → slice_of (list_range start stop (length vs)) vs ≡ slice start stop vs
slice_of-slice start stop vs =
    by_range (list_range start stop (length vs)) refl (list_range-Inside start stop (length vs))
  where
    by_range :
        (o : Option (ℕ × ℕ))
        → list_range start stop (length vs) ≡ o
        → Inside (length vs) o
        → slice_of o vs ≡ slice start stop vs
    by_range none e within = unfold slice_of in sym (slice_empty start stop vs e)
    by_range (some (first, last)) e (ordered, inside) =
        unfold slice_of in sym (slice_found start stop vs first last e ordered)

range_answer-slice_of :
    (o : Option (ℕ × ℕ)) (m : Dict ListNode) (xs : List Element)
    → Stretch m none xs none
    → range_answer o (keys_of xs) m ≡ slice_of o (values_of xs)
unfolding range_answer slice_of
range_answer-slice_of none m xs h = refl
range_answer-slice_of (some (first, last)) m xs h =
    values_between-Stretch (last - first + 1) first m xs h

index_answer : Option ℕ → Option Bytes → Dict ListNode → Option Bytes
index_answer o head m = elim o [ none ↦ none | some i ↦ value_of (key_at i head m) m ]

element_of : Option ℕ → List Bytes → Option Bytes
element_of o vs = elim o [ none ↦ none | some i ↦ get_elem? vs i ]

index_answer-element_of :
    (o : Option ℕ) (m : Dict ListNode) (xs : List Element)
    → Stretch m none xs none
    → index_answer o (first_key xs none) m ≡ element_of o (values_of xs)
unfolding index_answer element_of
index_answer-element_of none m xs h = refl
index_answer-element_of (some i) m xs h = key_at-Stretch i m none xs h

module _ (t : Tx) (rounds : ℕ) where
  open t use {State, get}

  pub resolved_as :
      (s : State) (public_key legacy body : Bytes) (item : Item) (prefix : ElementPrefix)
      → get s public_key ≡ ok item
      → ReadsBack item legacy body type_list prefix
      → resolve_prefix t s public_key legacy ≡ ok prefix
  unfolding resolve_prefix
  resolved_as s public_key legacy body item prefix found reads =
      rw (found, resolve_prefix) reads.same_prefix

  pub on_loaded :
      {B : Type 0} (s : State) (public_key legacy : Bytes) (prefix : ElementPrefix) (ll : Linked)
      (missing : Result DbError B) (next : Linked → Result DbError B)
      → resolve_prefix t s public_key legacy ≡ ok prefix
      → load_list t rounds s public_key prefix.bytes ≡ ok ll
      → (resolve_prefix t s public_key legacy >>= λ (p : ElementPrefix).
          on_missing (load_list t rounds s public_key p.bytes) missing next)
        ≡ next ll
  unfolding on_missing
  on_loaded s public_key legacy prefix ll missing next at loaded =
      ap
        (λ q. q >>= λ (p : ElementPrefix).
          on_missing (load_list t rounds s public_key p.bytes) missing next)
        at
      ∙ ap (λ q. on_missing q missing next) loaded

  -- After a list that stands for a sequence is persisted, LRANGE answers the values whose indices lie
  -- within its bounds, both included, and LINDEX the value at its index, none for one outside; bounds and
  -- indices below zero count from the last value. The
  -- list's keys have 16 bytes and are not zero, its length and that of the prefix fit in 32 bits, the
  -- prefix is recorded or is the one of the name, no node key is the public key, and a walk may take as
  -- many rounds as the sequence has elements.
  pub lrange-persist_list :
      (now : ℕ) (s s' : State) (public_key legacy : Bytes) (prefix : ElementPrefix) (ll : Linked)
      (xs : List Element) (start stop index : ℤ)
      → Represents ll xs
      → AllKeys xs
      → length xs < 2 ^ 32
      → length prefix.bytes < 2 ^ 32
      → (prefix.explicit ≡ false → prefix.bytes ≡ legacy)
      → ((k : Bytes) → bytes_eq (node_key prefix.bytes k) public_key ≡ false)
      → length xs ≤ rounds
      → persist_list t now s public_key prefix ll ≡ ok s'
      → (lrange t rounds s' public_key legacy start stop ≡ ok (slice start stop (values_of xs)))
        × (lindex t rounds s' public_key legacy index ≡ ok (at_index index (values_of xs)))
  lrange-persist_list now s s' public_key legacy prefix ll xs start stop index r keys small fits
        name apart enough h =
      let (item, still, reads, rest) =
        sentinel_kept t rounds now s s' public_key legacy prefix ll fits name apart h in
      let (ll', loaded, r') =
        load_list-persist_list t rounds now s s' public_key prefix ll xs r keys small fits apart
          enough h in
      let size : ll'.size ≡ length (values_of xs) = r'.counted ∙ sym (length-values xs) in
      let at : resolve_prefix t s' public_key legacy ≡ ok prefix =
        resolved_as s' public_key legacy (sentinel_bytes ll.head ll.tail ll.size) item prefix still
          reads in
      let range_of : Linked → Result DbError (List Bytes) =
        λ l. ok (range_answer (list_range start stop l.size) (ordered_keys l) l.nodes) in
      let item_of : Linked → Result DbError (Option Bytes) =
        λ l. ok (index_answer (list_index index l.size) l.head l.nodes) in
      let range_opened : lrange t rounds s' public_key legacy start stop ≡ (
          resolve_prefix t s' public_key legacy >>= λ (p : ElementPrefix).
          on_missing (load_list t rounds s' public_key p.bytes) (ok []) range_of) =
        unfold lrange range_answer in refl in
      let index_opened : lindex t rounds s' public_key legacy index ≡ (
          resolve_prefix t s' public_key legacy >>= λ (p : ElementPrefix).
          on_missing (load_list t rounds s' public_key p.bytes) (ok none) item_of) =
        unfold lindex index_answer in refl in
      let sliced : slice_of (list_range start stop (length (values_of xs))) (values_of xs)
          ≡ slice start stop (values_of xs) =
        slice_of-slice start stop (values_of xs) in
      let picked : element_of (list_index index (length (values_of xs))) (values_of xs)
          ≡ at_index index (values_of xs) =
        unfold element_of in at_index_found index (values_of xs) in
      (
        range_opened
            ∙ on_loaded s' public_key legacy prefix ll' (ok []) range_of at loaded
            ∙ ap
                (λ (ks : List Bytes).
                  ok (range_answer (list_range start stop ll'.size) ks ll'.nodes))
                (ordered_keys-Represents ll' xs r')
            ∙ ap (λ (vs : List Bytes). ok vs)
                (range_answer-slice_of (list_range start stop ll'.size) ll'.nodes xs r'.chained
                  ∙ ap (λ (n : ℕ). slice_of (list_range start stop n) (values_of xs)) size
                  ∙ sliced),
        index_opened
            ∙ on_loaded s' public_key legacy prefix ll' (ok none) item_of at loaded
            ∙ ap (λ (o : Option Bytes). ok (index_answer (list_index index ll'.size) o ll'.nodes))
                r'.at_head
            ∙ ap (λ (v : Option Bytes). ok v)
                (index_answer-element_of (list_index index ll'.size) ll'.nodes xs r'.chained
                  ∙ ap (λ (n : ℕ). element_of (list_index index n) (values_of xs)) size
                  ∙ picked),
      )
