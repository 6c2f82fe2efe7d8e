-- ===== src/Registry/Steps.antt =====
-- Sequences of operations on the registry: clients register and leave, writers claim, answer,
-- release and wake.
use invar.Prelude.{
  ℕ, ◌+◌, ◌^◌, ◌<◌, ◌≡◌, true, Option, none, some, List, ◌==◌, if◌then◌else◌, Bytes,
}
use invar.Registry.{
  Waiter, WaitKind, Claim, BlockResult, WatchRegistry, new_registry, try_claim, release_front,
  register, remove_waiter, wake_stream_waiters, wake,
}
use invar.Registry.Queues.{distinct_keys}

-- The registry, and the claims that writers hold, by the id of their waiter.
pub record World : Type 0 where
  pub registry : WatchRegistry
  pub held : ℕ → Option Claim

abbrev pub set_held : (ℕ → Option Claim) → ℕ → Option Claim → ℕ → Option Claim
set_held held id c i = if id == i then c else held i

-- One operation on the registry. A client registers for distinct keys, and a claim is released or
-- woken by the writer that holds it, once.
pub data Step : World → World → Type 0 where
  registers :
      (r : WatchRegistry) (held : ℕ → Option Claim) (keys : List Bytes) (kind : WaitKind)
      → distinct_keys keys ≡ true
      → r.next_id + 1 < 2 ^ 64
      → Step
          (record { registry = r; held = held })
          (record { registry = (register r keys kind).1; held = held })
  leaves :
      (r : WatchRegistry) (held : ℕ → Option Claim) (w : Waiter)
      → Step
          (record { registry = r; held = held })
          (record { registry = (remove_waiter r w).1; held = held })
  claims :
      (r r' : WatchRegistry) (held : ℕ → Option Claim) (public_key : Bytes) (c : Claim)
      → try_claim r public_key ≡ (some c, r')
      → Step
          (record { registry = r; held = held })
          (record { registry = r'; held = set_held held c.waiter.id (some c) })
  answers :
      (r : WatchRegistry) (held : ℕ → Option Claim) (id : ℕ) (c : Claim) (x : BlockResult)
      → held id ≡ some c
      → Step
          (record { registry = r; held = held })
          (record { registry = r; held = set_held held id (some (record c { result = some x })) })
  releases :
      (r : WatchRegistry) (held : ℕ → Option Claim) (id : ℕ) (c : Claim)
      → held id ≡ some c
      → Step
          (record { registry = r; held = held })
          (record { registry = release_front r c; held = set_held held id none })
  wakes :
      (r : WatchRegistry) (held : ℕ → Option Claim) (id : ℕ) (c : Claim)
      → held id ≡ some c
      → Step
          (record { registry = r; held = held })
          (record { registry = wake r c; held = set_held held id none })
  notifies :
      (r : WatchRegistry) (held : ℕ → Option Claim) (public_key : Bytes)
      → Step
          (record { registry = r; held = held })
          (record { registry = wake_stream_waiters r public_key; held = held })

pub data Reach : World → Type 0 where
  start : Reach (record { registry = new_registry; held = λ id. none })
  next : {a b : World} → Reach a → Step a b → Reach b
