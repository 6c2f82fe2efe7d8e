-- ===== src/Chain/Commands.antt =====
-- src/redis/list.rs: the database halves of the list commands. A push takes the keys of its new nodes
-- beside their values; `rounds` bounds the walk over the stored chain.
pub mod Pushes
pub mod Ranges
pub mod Reads
pub mod Trims
use invar.Prelude.{
  ℕ, zero, suc, ◌+◌, ◌-◌, Bool, true, false, not, Option, none, some, List, [], ◌∷◌, get_elem?,
  length, ltb, leb, ◌==◌, if◌then◌else◌, Result, ok, err, ◌>>=◌, Bytes, bytes_eq,
}
use invar.Prelude.Int.{ℤ, pos, negsuc}
use invar.Prelude.Dicts.{Dict, lookup, adjust}
use invar.Kv.{Tx, KvError, key_not_found, Item, DbError, kv, wrong_type, from_kv}
use invar.Namespace.{ElementPrefix, base_type, resolve_prefix, resolve_prefix_for_write}
use invar.Bitmap.{bit_range}
use invar.Chain.{
  ListNode, Linked, new_empty, next_of, ordered_keys, add_first, add_last, remove_first,
  remove_last, remove_matching, remove_matching_from_tail, trim_to, insert_beside,
}
use invar.Chain.Store.{
  type_list, Sentinel, read_sentinel, load_list, delete_removed_nodes, delete_all_nodes,
  persist_list,
}

-- The arm for a missing key, and the others.
unfoldable pub on_missing :
    {A B : Type 0} → Result DbError A → Result DbError B → (A → Result DbError B) → Result DbError B
on_missing (ok a) missing next = next a
on_missing (err (kv key_not_found)) missing next = missing
on_missing (err e) missing next = err e

unfoldable pub push_all : Bool → List (Bytes × Bytes) → Linked → Linked
unfolding add_first add_last
push_all at_tail [] ll = ll
push_all at_tail ((key, value) ∷ values) ll =
    push_all at_tail values
      (if at_tail then (add_last key value ll).1 else (add_first key value ll).1)

-- An index from the head, or from the end where it is negative.
unfoldable pub list_index : ℤ → ℕ → Option ℕ
list_index (pos n) size = if ltb n size then some n else none
list_index (negsuc n) size = if leb (suc n) size then some (size - suc n) else none

-- The range that LRANGE and LTRIM normalise as BITCOUNT does.
unfoldable pub list_range : ℤ → ℤ → ℕ → Option (ℕ × ℕ)
unfolding bit_range
list_range start stop size = bit_range start stop size

unfoldable pub key_at : ℕ → Option Bytes → Dict ListNode → Option Bytes
unfolding next_of
key_at zero cur nodes = cur
key_at (suc n) none nodes = none
key_at (suc n) (some k) nodes = key_at n (next_of k nodes) nodes

unfoldable pub value_of : Option Bytes → Dict ListNode → Option Bytes
value_of none nodes = none
value_of (some k) nodes = elim (lookup k nodes) [ none ↦ none | some n ↦ some n.value ]

-- `for i in start..=stop`, by the rounds that are left.
unfoldable pub values_between : ℕ → ℕ → List Bytes → Dict ListNode → List Bytes
unfolding value_of
values_between zero i keys nodes = []
values_between (suc rounds) i keys nodes =
    let rest = values_between rounds (i + 1) keys nodes in
    elim (value_of (get_elem? keys i) nodes) [ none ↦ rest | some value ↦ value ∷ rest ]

-- The links of a loaded list stay within it, so that the `expect` on a node does not fail.
unfoldable pub position_from : ℕ → ℕ → Bytes → Option Bytes → Dict ListNode → Option ℕ
position_from zero i element cur nodes = none
position_from (suc rounds) i element none nodes = none
position_from (suc rounds) i element (some k) nodes = elim (lookup k nodes) [
  | none ↦ none
  | some n ↦
      let rest = position_from rounds (i + 1) element n.next nodes in
      if bytes_eq n.value element then some i else rest
]

module _ (t : Tx) (rounds : ℕ) where
  open t use {State, get, delete}

  abbrev load : State → Bytes → ElementPrefix → Result DbError Linked
  load s public_key prefix = load_list t rounds s public_key prefix.bytes

  -- What a pop or a removal leaves: nothing under the key of an empty list.
  unfoldable pub save_or_delete : ℕ → State → Bytes → ElementPrefix → Linked → Result DbError State
  unfolding delete_removed_nodes persist_list
  save_or_delete now s public_key prefix ll =
      if ll.size == 0
      then (delete_removed_nodes t s prefix.bytes ll >>= λ s1. from_kv (delete s1 public_key))
      else persist_list t now s public_key prefix ll

  abbrev answering : {A : Type 0} → A → Result DbError State → Result DbError (A × State)
  answering answer r = r >>= λ s. ok (answer, s)

  unfoldable pub push_onto :
      ℕ
      → State
      → Bytes
      → ElementPrefix
      → List (Bytes × Bytes)
      → Bool
      → Linked
      → Result DbError (ℕ × State)
  unfolding push_all persist_list
  push_onto now s public_key prefix values at_tail ll =
      let ll' = push_all at_tail values ll in
      answering ll'.size (persist_list t now s public_key prefix ll')

  unfoldable pub push_values :
      ℕ
      → Bytes
      → State
      → Bytes
      → Bytes
      → List (Bytes × Bytes)
      → Bool
      → Bool
      → Result DbError (ℕ × State)
  unfolding resolve_prefix_for_write load_list on_missing push_onto new_empty
  push_values now id s public_key legacy values at_tail only_if_exists =
      resolve_prefix_for_write t id s public_key legacy >>= λ prefix.
      on_missing (load s public_key prefix)
        (if only_if_exists
          then ok (0, s)
          else push_onto now s public_key prefix values at_tail new_empty)
        (push_onto now s public_key prefix values at_tail)

  unfoldable pub pop_value :
      ℕ → State → Bytes → Bytes → Bool → Result DbError (Option Bytes × State)
  unfolding resolve_prefix load_list on_missing remove_first remove_last save_or_delete
  pop_value now s public_key legacy from_tail = resolve_prefix t s public_key legacy >>= λ prefix.
      on_missing (load s public_key prefix) (ok (none, s)) (λ ll.
        let (value, ll') = (if from_tail then remove_last ll else remove_first ll) in
        answering value (save_or_delete now s public_key prefix ll'))

  unfoldable pub llen : State → Bytes → Result DbError ℕ
  unfolding read_sentinel on_missing
  llen s public_key =
      on_missing (read_sentinel t s public_key) (ok 0) (λ sentinel. ok sentinel.size)

  unfoldable pub lrange : State → Bytes → Bytes → ℤ → ℤ → Result DbError (List Bytes)
  unfolding resolve_prefix load_list on_missing list_range values_between
  lrange s public_key legacy start stop = resolve_prefix t s public_key legacy >>= λ prefix.
      on_missing (load s public_key prefix) (ok []) (λ ll.
        ok (elim (list_range start stop ll.size) [
          | none ↦ []
          | some (first, last) ↦ values_between (last - first + 1) first (ordered_keys ll) ll.nodes
        ]))

  unfoldable pub lindex : State → Bytes → Bytes → ℤ → Result DbError (Option Bytes)
  unfolding resolve_prefix load_list on_missing list_index key_at value_of
  lindex s public_key legacy index = resolve_prefix t s public_key legacy >>= λ prefix.
      on_missing (load s public_key prefix) (ok none) (λ ll. ok (elim (list_index index ll.size) [
        | none ↦ none
        | some i ↦ value_of (key_at i ll.head ll.nodes) ll.nodes
      ]))

  unfoldable pub lset : ℕ → State → Bytes → Bytes → ℤ → Bytes → Result DbError State
  unfolding resolve_prefix load_list on_missing list_index key_at persist_list
  lset now s public_key legacy index value = resolve_prefix t s public_key legacy >>= λ prefix.
      on_missing (load s public_key prefix) (err (kv key_not_found)) (λ ll.
        elim (list_index index ll.size) [
          | none ↦ err (kv key_not_found)
          | some i ↦ elim (key_at i ll.head ll.nodes) [
            | none ↦ err (kv key_not_found)
            | some k ↦
                persist_list t now s public_key prefix
                  (record ll { nodes = adjust k (λ n. record n { value = value }) ll.nodes })
          ]
        ])

  -- A count below zero counts from the tail.
  unfoldable pub remove_values : ℤ → Bytes → Linked → ℕ × Linked
  unfolding remove_matching remove_matching_from_tail
  remove_values (pos limit) value ll = remove_matching limit value ll
  remove_values (negsuc n) value ll = remove_matching_from_tail (suc n) value ll

  unfoldable pub lrem : ℕ → State → Bytes → Bytes → ℤ → Bytes → Result DbError (ℕ × State)
  unfolding resolve_prefix load_list on_missing remove_values save_or_delete
  lrem now s public_key legacy count value = resolve_prefix t s public_key legacy >>= λ prefix.
      on_missing (load s public_key prefix) (ok (0, s)) (λ ll.
        let (removed, ll') = remove_values count value ll in
        answering removed (save_or_delete now s public_key prefix ll'))

  unfoldable pub ltrim : ℕ → State → Bytes → Bytes → ℤ → ℤ → Result DbError State
  unfolding resolve_prefix load_list on_missing list_range delete_all_nodes trim_to persist_list
  ltrim now s public_key legacy start stop = resolve_prefix t s public_key legacy >>= λ prefix.
      on_missing (load s public_key prefix) (ok s) (λ ll. elim (list_range start stop ll.size) [
        | none ↦ delete_all_nodes t s prefix.bytes ll >>= λ s1. from_kv (delete s1 public_key)
        | some (first, last) ↦ persist_list t now s public_key prefix (trim_to first last ll)
      ])

  -- No answer stands for -1, that of a pivot or a list that is not there.
  unfoldable pub linsert :
      ℕ → Bytes → State → Bytes → Bytes → Bool → Bytes → Bytes → Result DbError (Option ℕ × State)
  unfolding resolve_prefix load_list on_missing insert_beside persist_list
  linsert now new_key s public_key legacy before pivot value =
      resolve_prefix t s public_key legacy >>= λ prefix.
      on_missing (load s public_key prefix) (ok (none, s)) (λ ll.
        let (found, ll') = insert_beside new_key before pivot value ll in
        if found
        then answering (some ll'.size) (persist_list t now s public_key prefix ll')
        else ok (none, s))

  -- The push of RPOPLPUSH resolves the destination after the source is saved: it may be the same list.
  unfoldable pub push_popped :
      ℕ → Bytes → Bytes → State → Bytes → Bytes → Bytes → Result DbError (Option Bytes × State)
  unfolding resolve_prefix_for_write load_list on_missing add_first persist_list new_empty
  push_popped now id new_key s public_key legacy value =
      resolve_prefix_for_write t id s public_key legacy >>= λ prefix.
      on_missing (load s public_key prefix) (ok new_empty) ok >>= λ ll.
      answering (some value) (persist_list t now s public_key prefix (add_first new_key value ll).1)

  unfoldable pub rpoplpush :
      ℕ
      → Bytes
      → Bytes
      → State
      → Bytes
      → Bytes
      → Bytes
      → Bytes
      → Result DbError (Option Bytes × State)
  unfolding resolve_prefix load_list on_missing remove_last save_or_delete push_popped
  rpoplpush now id new_key s source source_legacy destination destination_legacy =
      resolve_prefix t s source source_legacy >>= λ prefix.
      on_missing (load s source prefix) (ok (none, s)) (λ ll.
        let (popped, ll') = remove_last ll in
        elim popped [
          | none ↦ ok (none, s)
          | some value ↦ save_or_delete now s source prefix ll' >>= λ s1.
              push_popped now id new_key s1 destination destination_legacy value
        ])

  -- The check of the type stands before the load.
  unfoldable pub is_other_type : Result KvError Item → Bool
  is_other_type (ok item) = not (base_type item.meta == type_list)
  is_other_type (err e) = false

  unfoldable pub lpos : State → Bytes → Bytes → Bytes → Result DbError (Option ℕ)
  unfolding resolve_prefix is_other_type load_list on_missing position_from
  lpos s public_key legacy element = resolve_prefix t s public_key legacy >>= λ prefix.
      if is_other_type (get s public_key)
      then err wrong_type
      else on_missing (load s public_key prefix) (ok none)
          (λ ll. ok (position_from (length ll.nodes) 0 element ll.head ll.nodes))
