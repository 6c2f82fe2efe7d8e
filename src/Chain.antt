-- ===== src/Chain.antt =====
-- src/redis/list.rs: `Linked`, a list in memory as a doubly linked chain of nodes that a map holds by
-- their keys. `random_key` gives the key of each new node, and is an argument here. A size of 32 bits
-- keeps its wrap-around. A walk over the chain takes as many rounds as the map has nodes.
pub mod Segments
pub mod Represent
pub mod Ends
pub mod Insertion
pub mod Pivot
pub mod Matches
pub mod Trim
pub mod Thinned
pub mod FromTail
pub mod Store
pub mod Codec
pub mod Saved
pub mod Loaded
pub mod RoundTrip
pub mod Walks
pub mod Commands
use invar.Prelude.{
  ℕ, zero, suc, ◌+◌, ◌-◌, ◌%◌, ◌^◌, Bool, true, false, not, Option, none, some, List, [], ◌∷◌, ◌++◌,
  length, ltb, leb, ◌==◌, ◌||◌, ◌&&◌, if◌then◌else◌, Bytes, bytes_eq,
}
use mathlib.Core.List.{reverse}
use invar.Prelude.Dicts.{Dict, lookup, erase, put, adjust, has_key}

pub record ListNode : Type 0 where
  pub key : Bytes
  pub value : Bytes
  pub prev : Option Bytes
  pub next : Option Bytes

pub record Linked : Type 0 where
  pub size : ℕ
  pub head : Option Bytes
  pub tail : Option Bytes
  pub nodes : Dict ListNode
  pub removed : List Bytes

unfoldable pub new_empty : Linked
new_empty = record { size = 0; head = none; tail = none; nodes = []; removed = [] }

-- `if let Some(n) = self.nodes.get_mut(&old) { n.prev = link; }`, and the same for `next`.
unfoldable pub set_prev : Option Bytes → Option Bytes → Dict ListNode → Dict ListNode
set_prev none link nodes = nodes
set_prev (some k) link nodes = adjust k (λ n. record n { prev = link }) nodes

unfoldable pub set_next : Option Bytes → Option Bytes → Dict ListNode → Dict ListNode
set_next none link nodes = nodes
set_next (some k) link nodes = adjust k (λ n. record n { next = link }) nodes

-- An end of the chain that moves where there is no neighbour on that side.
abbrev pub end_unless : Option Bytes → Option Bytes → Option Bytes → Option Bytes
end_unless none moved kept = moved
end_unless (some k) moved kept = kept

-- `self.nodes.get(&k).and_then(|n| n.next)`
unfoldable pub next_of : Bytes → Dict ListNode → Option Bytes
next_of k nodes = elim (lookup k nodes) [ none ↦ none | some n ↦ n.next ]

unfoldable pub holds_value : Bytes → Bytes → Dict ListNode → Bool
holds_value value k nodes = elim (lookup k nodes) [ none ↦ false | some n ↦ bytes_eq n.value value ]

unfoldable pub keys_from : ℕ → Option Bytes → Dict ListNode → List Bytes
keys_from zero cur nodes = []
keys_from (suc rounds) none nodes = []
keys_from (suc rounds) (some k) nodes = k ∷ keys_from rounds (next_of k nodes) nodes

unfoldable pub ordered_keys : Linked → List Bytes
ordered_keys ll = keys_from (length ll.nodes) ll.head ll.nodes

-- The new size is the answer.
unfoldable pub add_first : Bytes → Bytes → Linked → ℕ × Linked
add_first key value ll =
    let size = (ll.size + 1) % 2 ^ 32 in
    (
      size,
      record {
        size = size;
        head = some key;
        tail = end_unless ll.head (some key) ll.tail;
        nodes =
            put key (record { key = key; value = value; prev = none; next = ll.head })
              (set_prev ll.head (some key) ll.nodes);
        removed = ll.removed;
      },
    )

unfoldable pub add_last : Bytes → Bytes → Linked → ℕ × Linked
add_last key value ll =
    let size = (ll.size + 1) % 2 ^ 32 in
    (
      size,
      record {
        size = size;
        head = end_unless ll.tail (some key) ll.head;
        tail = some key;
        nodes =
            put key (record { key = key; value = value; prev = ll.tail; next = none })
              (set_next ll.tail (some key) ll.nodes);
        removed = ll.removed;
      },
    )

-- `saturating_sub` on the size is the subtraction of the natural numbers.
unfoldable pub cut_head : Bytes → ListNode → Linked → Linked
cut_head head node ll = record {
  size = ll.size - 1;
  head = node.next;
  tail = end_unless node.next none ll.tail;
  nodes = set_prev node.next none (erase head ll.nodes);
  removed = ll.removed ++ head ∷ [];
}

unfoldable pub cut_tail : Bytes → ListNode → Linked → Linked
cut_tail tail node ll = record {
  size = ll.size - 1;
  head = end_unless node.prev none ll.head;
  tail = node.prev;
  nodes = set_next node.prev none (erase tail ll.nodes);
  removed = ll.removed ++ tail ∷ [];
}

abbrev pub take_node :
    (Bytes → ListNode → Linked → Linked) → Bytes → Linked → Option ListNode → Option Bytes × Linked
take_node cut k ll none = (none, ll)
take_node cut k ll (some node) = (some node.value, cut k node ll)

abbrev pub remove_with :
    (Bytes → ListNode → Linked → Linked) → Option Bytes → Linked → Option Bytes × Linked
remove_with cut none ll = (none, ll)
remove_with cut (some k) ll = take_node cut k ll (lookup k ll.nodes)

unfoldable pub remove_first : Linked → Option Bytes × Linked
remove_first ll = remove_with cut_head ll.head ll

unfoldable pub remove_last : Linked → Option Bytes × Linked
remove_last ll = remove_with cut_tail ll.tail ll

-- A node taken out of the middle of the chain.
unfoldable pub unlink : Bytes → Option Bytes → Option Bytes → Linked → Linked
unlink k prev next ll = record ll {
  size = ll.size - 1;
  nodes = erase k (set_prev next prev (set_next prev next ll.nodes));
  removed = ll.removed ++ k ∷ [];
}

-- The loop of `remove_matching`: the head found so far, the last node kept, and the removals.
pub record Removal : Type 0 where
  pub count : ℕ
  pub new_head : Option Bytes
  pub prev : Option Bytes

unfoldable pub remove_loop : ℕ → ℕ → Bytes → Option Bytes → Removal → Linked → Removal × Linked
unfolding next_of holds_value unlink
remove_loop zero limit value cur r ll = (r, ll)
remove_loop (suc rounds) limit value none r ll = (r, ll)
remove_loop (suc rounds) limit value (some k) r ll =
    let next = next_of k ll.nodes in
    let taken =
      remove_loop rounds limit value next (record r { count = r.count + 1 })
        (unlink k r.prev next ll) in
    let kept =
      remove_loop rounds limit value next
        (record r { new_head = end_unless r.new_head (some k) r.new_head; prev = some k }) ll in
    if holds_value value k ll.nodes && (limit == 0 || ltb r.count limit) then taken else kept

-- For a count that is not negative.
unfoldable pub remove_matching : ℕ → Bytes → Linked → ℕ × Linked
unfolding remove_loop
remove_matching limit value ll =
    let (r, ll') =
      remove_loop (length ll.nodes) limit value ll.head
        (record { count = 0; new_head = none; prev = none }) ll in
    (r.count, record ll' { head = r.new_head; tail = r.prev })

unfoldable pub find_key : (Bytes → Bool) → List Bytes → Option Bytes
find_key test [] = none
find_key test (k ∷ ks) = let rest = find_key test ks in if test k then some k else rest

-- The new node and the links to it, beside the node of the pivot.
unfoldable pub link_before : Bytes → Bytes → ListNode → Bytes → Linked → Linked
link_before new_key pivot_key pivot value ll = record ll {
  size = (ll.size + 1) % 2 ^ 32;
  head = end_unless pivot.prev (some new_key) ll.head;
  nodes = set_prev (some pivot_key) (some new_key) (
      set_next pivot.prev (some new_key) (
        put new_key
          (record { key = new_key; value = value; prev = pivot.prev; next = some pivot_key })
          ll.nodes));
}

unfoldable pub link_after : Bytes → Bytes → ListNode → Bytes → Linked → Linked
link_after new_key pivot_key pivot value ll = record ll {
  size = (ll.size + 1) % 2 ^ 32;
  tail = end_unless pivot.next (some new_key) ll.tail;
  nodes = set_next (some pivot_key) (some new_key) (
      set_prev pivot.next (some new_key) (
        put new_key
          (record { key = new_key; value = value; prev = some pivot_key; next = pivot.next })
          ll.nodes));
}

-- The `expect` on the pivot's node does not fail: `find` looked it up.
unfoldable pub insert_at : Bytes → Bool → Bytes → Linked → Bytes → Option ListNode → Bool × Linked
unfolding link_before link_after
insert_at new_key before value ll pivot_key none = (false, ll)
insert_at new_key before value ll pivot_key (some node) = (
  true,
  if before
      then link_before new_key pivot_key node value ll
      else link_after new_key pivot_key node value ll,
)

unfoldable pub insert_found : Bytes → Bool → Bytes → Linked → Option Bytes → Bool × Linked
unfolding insert_at
insert_found new_key before value ll none = (false, ll)
insert_found new_key before value ll (some pivot_key) =
    insert_at new_key before value ll pivot_key (lookup pivot_key ll.nodes)

unfoldable pub insert_beside : Bytes → Bool → Bytes → Bytes → Linked → Bool × Linked
unfolding insert_found find_key holds_value ordered_keys
insert_beside new_key before pivot value ll =
    insert_found new_key before value ll
      (find_key (λ k. holds_value pivot k ll.nodes) (ordered_keys ll))

-- `remove_matching_from_tail`, for the target that `-count` gives: the keys from the tail on.
unfoldable pub remove_from_tail : ℕ → Bytes → List Bytes → ℕ → Linked → ℕ × Linked
unfolding unlink
remove_from_tail target value [] removed ll = (removed, ll)
remove_from_tail target value (k ∷ ks) removed ll =
    let skipped = remove_from_tail target value ks removed ll in
    elim (lookup k ll.nodes) [
      | none ↦ if leb target removed then (removed, ll) else skipped
      | some n ↦
          let taken = remove_from_tail target value ks (removed + 1) (unlink k n.prev n.next ll) in
          if leb target removed
          then (removed, ll)
          else if bytes_eq n.value value
          then taken
          else skipped
    ]

unfoldable pub remove_matching_from_tail : ℕ → Bytes → Linked → ℕ × Linked
unfolding ordered_keys remove_from_tail find_key
remove_matching_from_tail target value ll =
    let keys = ordered_keys ll in
    let (removed, ll') = remove_from_tail target value (reverse keys) 0 ll in
    (
      removed,
      record ll' {
        head = find_key (λ k. has_key k ll'.nodes) keys;
        tail = find_key (λ k. has_key k ll'.nodes) (reverse keys);
      },
    )

-- The links that `trim_to` carries from one kept node to the next.
pub record Kept : Type 0 where
  pub new_head : Option Bytes
  pub new_tail : Option Bytes
  pub prev : Option Bytes

unfoldable pub keep_node : Bytes → Kept → Linked → Linked
unfolding set_prev set_next
keep_node k kept ll = record ll {
  nodes =
      set_next kept.prev (some k) (set_next (some k) none (set_prev (some k) kept.prev ll.nodes));
}

unfoldable pub drop_node : Bytes → Linked → Linked
drop_node k ll = record ll { nodes = erase k ll.nodes; removed = ll.removed ++ k ∷ [] }

-- `i` is the index of the first of the keys.
unfoldable pub trim_loop : ℕ → ℕ → ℕ → List Bytes → Kept → Linked → Kept × Linked
unfolding keep_node drop_node
trim_loop start stop i [] kept ll = (kept, ll)
trim_loop start stop i (k ∷ ks) kept ll =
    let outside = trim_loop start stop (i + 1) ks kept (drop_node k ll) in
    let inside =
      trim_loop start stop (i + 1) ks
        (record {
          new_head = end_unless kept.new_head (some k) kept.new_head;
          new_tail = some k;
          prev = some k;
        })
        (keep_node k kept ll) in
    if ltb i start || ltb stop i then outside else inside

unfoldable pub trim_to : ℕ → ℕ → Linked → Linked
unfolding ordered_keys trim_loop
trim_to start stop ll =
    let (kept, ll') =
      trim_loop start stop 0 (ordered_keys ll)
        (record { new_head = none; new_tail = none; prev = none }) ll in
    record ll' { size = (stop - start + 1) % 2 ^ 32; head = kept.new_head; tail = kept.new_tail }
