-- ===== src/Examples/Blocking.antt =====
-- Blocked clients on the key k: a BZPOPMIN client and an XREAD client.
use invar.Prelude.{◌≡◌, refl, true, some, none, [], ◌∷◌, if◌then◌else◌, Bytes, arith}
use invar.Registry.{
  pop, stream, Waiter, claim_on, appended, waiting, delivered, WatchRegistry, new_registry,
  register, try_claim, release_front, wake_stream_waiters, or_empty,
}
use invar.Registry.Steps.{World, registers, Reach, start, next}
use invar.Registry.Reachable.{IsValid}
use invar.Registry.Exclusive.{Reach-IsValid, try_claim_exclusive}
use invar.Registry.Delivery.{reads_stream, wake_stream_waiters_lem}

abbrev key : Bytes
key = b'k' ∷ []

abbrev blocked : World
blocked = record { registry = (register new_registry (key ∷ []) (pop true)).1; held = λ id. none }

blocked-Reach : Reach blocked
blocked-Reach = next start (
    registers new_registry (λ id. none) (key ∷ []) (pop true) refl
      (unfold new_registry in omega arith))

abbrev waiter : Waiter
waiter = record { id = 1; keys = key ∷ []; kind = pop true }

claimed :
    try_claim blocked.registry key ≡ (some (claim_on waiter), (try_claim blocked.registry key).1)
claimed = unfold try_claim register new_registry in refl

Reach-IsValid_example : IsValid blocked
Reach-IsValid_example = Reach-IsValid blocked blocked-Reach

try_claim_exclusive_example : blocked.held 1 ≡ none
try_claim_exclusive_example =
    try_claim_exclusive blocked (try_claim blocked.registry key).1 key (claim_on waiter)
      blocked-Reach claimed

abbrev released : WatchRegistry
released = release_front (try_claim blocked.registry key).1 (claim_on waiter)

abbrev reading : WatchRegistry
reading = (register new_registry (key ∷ []) stream).1

wake_stream_waiters_lem_example : (wake_stream_waiters reading key).channel 1 ≡ (
    if reads_stream 1 (or_empty (reading.waiters key)) then delivered (appended key) else waiting)
wake_stream_waiters_lem_example =
    wake_stream_waiters_lem reading key 1 (unfold register new_registry in refl)
