-- ===== src/Dispatch/Bumps.antt =====
-- The keys whose versions a dispatch raises.
use invar.Prelude.{
  ℕ, ◌+◌, ◌%◌, ◌^◌, ◌≡◌, ◌∙◌, refl, ap, Bool, true, false, Option, none, some, List, [], ◌∷◌, ◌++◌,
  if◌then◌else◌, Bytes, arith,
}
use invar.Registry.{WatchRegistry, get_version, bump_versions}
use invar.Registry.Delivery.{times, get_version-bump_versions_mod}
use invar.Multi.{QueuedOp}
use invar.Dispatch.{keys_in, changed_keys}

abbrev named : Bytes → Option (List Bytes) → ℕ
named key none = 0
named key (some keys) = times key keys

-- How often the operations of a queue that change the store name a key.
abbrev pub writes_of : {Op : Type 0} → Bytes → List (QueuedOp Op) → ℕ
writes_of key [] = 0
writes_of key (op ∷ queue) = (if op.is_mutating then named key op.keys else 0) + writes_of key queue

times-append :
    (key : Bytes) (xs ys : List Bytes) → times key (xs ++ ys) ≡ times key xs + times key ys
times-append key [] ys = omega arith
times-append key (x ∷ xs) ys = ground (arith, times-append key xs ys)

times-changed_keys :
    {Op : Type 0} (key : Bytes) (queue : List (QueuedOp Op))
    → times key (changed_keys queue) ≡ writes_of key queue
unfolding changed_keys
times-changed_keys key [] = refl
times-changed_keys key (op ∷ queue) = by_kind op.is_mutating op.keys (times-changed_keys key queue)
  where
    by_kind :
        (b : Bool) (o : Option (List Bytes))
        → times key (changed_keys queue) ≡ writes_of key queue
        → times key (if b then keys_in o ++ changed_keys queue else changed_keys queue)
          ≡ (if b then named key o else 0) + writes_of key queue
    by_kind false o rest = omega (arith, rest)
    by_kind true none rest = unfold keys_in in omega (arith, rest)
    by_kind true (some keys) rest =
        unfold keys_in in omega (arith, times-append key keys (changed_keys queue), rest)

-- The versions rise by the writes of the queue.
pub bumped_by :
    {Op : Type 0} (registry : WatchRegistry) (queue : List (QueuedOp Op)) (key : Bytes)
    → get_version (bump_versions registry (changed_keys queue)) key % 2 ^ 64
      ≡ (get_version registry key + writes_of key queue) % 2 ^ 64
bumped_by registry queue key =
    get_version-bump_versions_mod registry (changed_keys queue) key
    ∙ ap (λ n. (get_version registry key + n) % 2 ^ 64) (times-changed_keys key queue)
