-- ===== src/Examples/Chains.antt =====
-- Lists in memory that the theorems of Chain are applied to.
use invar.Prelude.{none, ok, ◌≡◌, ◌+◌, refl, true, false, some, List, [], ◌∷◌, length, arith, Bytes}
use invar.Prelude.Dicts.{put}
use invar.Chain.{trim_to, set_next, Linked, new_empty, remove_last, remove_matching, insert_beside}
use invar.Namespace.{ElementPrefix, sentinel_entry, write_sentinel}
use invar.Chain.Store.{type_list, sentinel_bytes, node_key, node_entry, load_list, persist_list}
use invar.Chain.RoundTrip.{load_list-persist_list}
use invar.Examples.Memory.{Memory, memory, empty, write, item_of}
use invar.Chain.Segments.{Element}
use invar.Chain.Represent.{Represents, new_empty-Represents}
use invar.Chain.Ends.{FirstTaken, remove_first-Represents, remove_last-Represents}
use invar.Chain.Pivot.{Inserted, insert_value, insert_beside-Represents}
use invar.Chain.Matches.{without_matching, remove_matching-Represents}
use invar.Chain.Commands.{push_all}
use invar.Prelude.Int.{pos, negsuc}
use invar.Chain.Commands.{lrange, lindex}
use invar.Chain.Commands.Ranges.{slice, at_index}
use invar.Chain.Commands.Reads.{lrange-persist_list}
use invar.Chain.Commands.Pushes.{push_all-Represents}
use invar.Chain.FromTail.{without_last, remove_matching_from_tail-Represents}
use invar.Chain.{remove_matching_from_tail}
use invar.Chain.Trim.{trim_to-Represents}

-- Three elements, the outer two with the same value.
abbrev elements : List Element
elements = (1 ∷ [], b'a' ∷ []) ∷ (2 ∷ [], b'b' ∷ []) ∷ (3 ∷ [], b'a' ∷ []) ∷ []

abbrev chain : Linked
chain = push_all true elements new_empty

push_all-Represents_example : Represents chain elements
push_all-Represents_example =
    push_all-Represents true elements [] new_empty new_empty-Represents
      ((refl, (refl, tt)), ((refl, tt), (tt, tt))) (omega arith)

chain-elements : Represents chain elements
chain-elements =
    push_all-Represents true elements [] new_empty new_empty-Represents
      ((refl, (refl, tt)), ((refl, tt), (tt, tt))) (omega arith)

remove_first-Represents_example : FirstTaken chain elements
remove_first-Represents_example = remove_first-Represents chain elements chain-elements

remove_last-Represents_example :
    ((remove_last chain).0 ≡ some (b'a' ∷ []))
    × Represents (remove_last chain).1 ((1 ∷ [], b'a' ∷ []) ∷ (2 ∷ [], b'b' ∷ []) ∷ [])
remove_last-Represents_example =
    remove_last-Represents chain ((1 ∷ [], b'a' ∷ []) ∷ (2 ∷ [], b'b' ∷ []) ∷ []) (3 ∷ [])
      (b'a' ∷ []) chain-elements

insert_beside-Represents_example :
    Inserted
      (insert_value false (b'b' ∷ []) (4 ∷ [], b'c' ∷ []) elements)
      chain
      (insert_beside (4 ∷ []) false (b'b' ∷ []) (b'c' ∷ []) chain)
insert_beside-Represents_example =
    insert_beside-Represents chain elements false (b'b' ∷ []) (4 ∷ []) (b'c' ∷ []) chain-elements
      (refl, (refl, (refl, tt))) (omega arith)

remove_matching-Represents_example :
    Represents (remove_matching 1 (b'a' ∷ []) chain).1 (without_matching 1 (b'a' ∷ []) 0 elements)
    × ((remove_matching 1 (b'a' ∷ []) chain).0 + length (without_matching 1 (b'a' ∷ []) 0 elements)
        ≡ length elements)
remove_matching-Represents_example =
    remove_matching-Represents chain elements 1 (b'a' ∷ []) chain-elements

-- The first of the two is gone.
one_removed :
    without_matching 1 (b'a' ∷ []) 0 elements ≡ (2 ∷ [], b'b' ∷ []) ∷ (3 ∷ [], b'a' ∷ []) ∷ []
unfolding without_matching
one_removed = refl

-- A list with one element under a key of 16 bytes, on the store in memory.
abbrev long_key : Bytes
long_key = 1 ∷ 0 ∷ 0 ∷ 0 ∷ 0 ∷ 0 ∷ 0 ∷ 0 ∷ 0 ∷ 0 ∷ 0 ∷ 0 ∷ 0 ∷ 0 ∷ 0 ∷ 2 ∷ []

abbrev single : List Element
single = (long_key, b'v' ∷ []) ∷ []

abbrev stored_list : Linked
stored_list = push_all true single new_empty

abbrev place : ElementPrefix
place = record { bytes = b'+' ∷ []; explicit = true }

abbrev public_name : Bytes
public_name = b'0' ∷ b':' ∷ b'l' ∷ []

abbrev sentinel_state : Memory
sentinel_state = write empty public_name (
    ok (
      item_of (
        sentinel_entry public_name (sentinel_bytes (some long_key) (some long_key) 1) type_list
          place)))

abbrev saved : Memory
saved = write sentinel_state (node_key place.bytes long_key) (
    ok (
      item_of (
        node_entry memory place.bytes
          (record { key = long_key; value = b'v' ∷ []; prev = none; next = none }))))

load_list-persist_list_example :
    (ll : Linked) × (load_list memory 1 saved public_name place.bytes ≡ ok ll)
    × Represents ll single
load_list-persist_list_example =
    load_list-persist_list memory 1 0 empty saved public_name place stored_list single
      (push_all-Represents true single [] new_empty new_empty-Represents (tt, tt) (omega arith))
      ((refl, refl), tt) (omega arith) (omega arith) (λ k. unfold node_key in refl) (omega arith)
      (unfold persist_list push_all new_empty sentinel_entry node_entry write_sentinel put
          set_next in
        refl)

lrange-persist_list_example :
    (lrange memory 1 saved public_name [] (pos 0) (negsuc 0)
      ≡ ok (slice (pos 0) (negsuc 0) ((b'v' ∷ []) ∷ [])))
    × (lindex memory 1 saved public_name [] (negsuc 0)
        ≡ ok (at_index (negsuc 0) ((b'v' ∷ []) ∷ [])))
lrange-persist_list_example =
    lrange-persist_list memory 1 0 empty saved public_name [] place stored_list single (pos 0)
      (negsuc 0) (negsuc 0)
      (push_all-Represents true single [] new_empty new_empty-Represents (tt, tt) (omega arith))
      ((refl, refl), tt) (omega arith) (omega arith) (λ e. cc) (λ k. unfold node_key in refl)
      (omega arith)
      (unfold persist_list push_all new_empty sentinel_entry node_entry write_sentinel put
          set_next in
        refl)

trim_to-Represents_example : Represents (trim_to 1 1 chain) ((2 ∷ [], b'b' ∷ []) ∷ [])
trim_to-Represents_example =
    trim_to-Represents chain elements 1 1 chain-elements (omega arith) (omega arith) (omega arith)

-- Trimmed from the last element on, the list of one element stays.
abbrev trimmed_sentinel : Memory
trimmed_sentinel = write saved public_name (
    ok (
      item_of (
        sentinel_entry public_name (sentinel_bytes (some long_key) (some long_key) 1) type_list
          place)))

abbrev resaved : Memory
resaved = write trimmed_sentinel (node_key place.bytes long_key) (
    ok (
      item_of (
        node_entry memory place.bytes
          (record { key = long_key; value = b'v' ∷ []; prev = none; next = none }))))

remove_matching_from_tail-Represents_example :
    Represents
      (remove_matching_from_tail 1 (b'a' ∷ []) chain).1
      (without_last 1 (b'a' ∷ []) elements)
    × ((remove_matching_from_tail 1 (b'a' ∷ []) chain).0
          + length (without_last 1 (b'a' ∷ []) elements)
        ≡ length elements)
remove_matching_from_tail-Represents_example =
    remove_matching_from_tail-Represents chain elements 1 (b'a' ∷ []) chain-elements (omega arith)

-- The last of the two is gone.
last_removed : without_last 1 (b'a' ∷ []) elements ≡ (1 ∷ [], b'a' ∷ []) ∷ (2 ∷ [], b'b' ∷ []) ∷ []
unfolding without_matching
last_removed = refl
