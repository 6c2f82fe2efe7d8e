-- ===== src/Registry/Exclusive.antt =====
-- A client that registers goes behind all others; and what holds in every reachable state.
use invar.Prelude.{
  ℕ, ◌+◌, ◌%◌, ◌^◌, ◌<◌, ◌≡◌, ◌≢◌, ◌∙◌, refl, sym, subst, true, false, Option, none, some, List, [],
  ◌∷◌, ◌++◌, All, ◌==◌, if◌then◌else◌, Bytes, arith, Bool-cases, Option-cases, inl, inr,
}
use mathlib.Core.Bool.{true≢false}
use invar.Registry.{
  Waiter, WaitKind, Claim, WatchRegistry, new_registry, or_empty, push_back, claim_on, try_claim,
  register,
}
use invar.Registry.Queues.{has_key, distinct_keys, has_id, distinct_ids, push_back_at}
use invar.Registry.Steps.{
  World, Step, registers, leaves, claims, answers, releases, wakes, notifies, Reach, start, next,
}
use invar.Registry.Claims.{IsQueued, IsSound, claim_front_inv}
use invar.Registry.Reachable.{
  IsValid, leaves-IsValid, notifies-IsValid, claims-IsValid, answers-IsValid, wakes-IsValid,
  releases-IsValid,
}

module _ (keys_of : ℕ → List Bytes) (bound : ℕ) (keys : List Bytes) where
  -- The keys of each id, with those of the new one.
  abbrev grown : ℕ → List Bytes
  grown i = if i == bound then keys else keys_of i

  grown_old : (i : ℕ) → i < bound → grown i ≡ keys_of i
  grown_old i h = ground arith

  later :
      (key : Bytes) (q : List Waiter)
      → All (IsQueued keys_of bound key) q
      → All (IsQueued grown (bound + 1) key) q
  later key [] h = h
  later key (w ∷ q) (x, h) = (
    record {
      old = omega (arith, x.old);
      known = x.known ∙ sym (grown_old w.id x.old);
      at_key = x.at_key;
      distinct = x.distinct;
    },
    later key q h,
  )

  unused :
      (key : Bytes) (q : List Waiter) → All (IsQueued keys_of bound key) q → has_id bound q ≡ false
  unused key [] h = refl
  unused key (w ∷ q) (x, h) = ground (arith, x.old, unused key q h)

has_id-append_one :
    (i : ℕ) (q : List Waiter) (w : Waiter)
    → w.id ≢ i
    → has_id i q ≡ false
    → has_id i (q ++ w ∷ []) ≡ false
has_id-append_one i [] w n h = ground (arith, n)
has_id-append_one i (x ∷ q) w n h = ground (arith, has_id-append_one i q w n)

distinct_ids-append_one :
    (q : List Waiter) (w : Waiter)
    → distinct_ids q ≡ true
    → has_id w.id q ≡ false
    → distinct_ids (q ++ w ∷ []) ≡ true
distinct_ids-append_one [] w h n = refl
distinct_ids-append_one (x ∷ q) w h n =
    ground (arith, distinct_ids-append_one q w, has_id-append_one x.id q w)

All-append_one :
    (P : Waiter → Type 0) (q : List Waiter) (w : Waiter) → All P q → P w → All P (q ++ w ∷ [])
All-append_one P [] w h x = (x, tt)
All-append_one P (y ∷ q) w (p, h) x = (p, All-append_one P q w h x)

abbrev newcomer : WatchRegistry → List Bytes → WaitKind → Waiter
newcomer r keys kind = record { id = r.next_id; keys = keys; kind = kind }

behind-IsSound :
    (keys_of : ℕ → List Bytes) (r : WatchRegistry) (keys : List Bytes) (kind : WaitKind)
    → distinct_keys keys ≡ true
    → IsSound keys_of r.next_id r.waiters
    → IsSound
        (grown keys_of r.next_id keys)
        (r.next_id + 1)
        (push_back r.waiters (newcomer r keys kind) keys)
behind-IsSound keys_of r keys kind h sound k =
    rw (push_back_at r.waiters (newcomer r keys kind) keys k h)
      (elim (Bool-cases (has_key k keys)) [
        | inl n ↦ rw n (record {
          queued =
              All-append_one _ (or_empty (r.waiters k)) (newcomer r keys kind)
                (later keys_of r.next_id keys k (or_empty (r.waiters k)) (sound k).queued)
                (record { old = omega arith; known = ground arith; at_key = n; distinct = h });
          once =
              distinct_ids-append_one (or_empty (r.waiters k)) (newcomer r keys kind) (sound k).once
                (unused keys_of r.next_id keys k (or_empty (r.waiters k)) (sound k).queued);
        })
        | inr n ↦ rw n (record {
          queued = later keys_of r.next_id keys k (or_empty (r.waiters k)) (sound k).queued;
          once = (sound k).once;
        })
      ])

behind_nowhere :
    (r : WatchRegistry) (keys : List Bytes) (kind : WaitKind) (i : ℕ) (k : Bytes)
    → distinct_keys keys ≡ true
    → i < r.next_id
    → has_id i (or_empty (r.waiters k)) ≡ false
    → has_id i (or_empty (push_back r.waiters (newcomer r keys kind) keys k)) ≡ false
behind_nowhere r keys kind i k h small x =
    rw (push_back_at r.waiters (newcomer r keys kind) keys k h)
      (elim (Bool-cases (has_key k keys)) [
        | inl n ↦ rw n (
            has_id-append_one i (or_empty (r.waiters k)) (newcomer r keys kind) (λ e. omega arith)
              x)
        | inr n ↦ rw n x
      ])

registers-IsValid :
    (r : WatchRegistry) (held : ℕ → Option Claim) (keys : List Bytes) (kind : WaitKind)
    → distinct_keys keys ≡ true
    → r.next_id + 1 < 2 ^ 64
    → IsValid (record { registry = r; held = held })
    → IsValid (record { registry = (register r keys kind).1; held = held })
registers-IsValid r held keys kind h room v =
    let wrapped : (r.next_id + 1) % 2 ^ 64 ≡ r.next_id + 1 = omega arith in
    unfold register in
    rw wrapped (record {
      keys_of = grown v.keys_of r.next_id keys;
      sound = behind-IsSound v.keys_of r keys kind h v.sound;
      holds = λ id c g.
          let x = v.holds id c g in
          record {
            own_id = x.own_id;
            plain = x.plain;
            old = omega (arith, x.old);
            known = x.known ∙ sym (grown_old v.keys_of r.next_id keys id x.old);
            distinct = x.distinct;
            nowhere = λ k. behind_nowhere r keys kind id k h x.old (x.nowhere k);
          };
    })

Step-IsValid : {a b : World} → Step a b → IsValid a → IsValid b
Step-IsValid (registers r held keys kind h room) v = registers-IsValid r held keys kind h room v
Step-IsValid (leaves r held w) v = leaves-IsValid r held w v
Step-IsValid (claims r r' held public_key c h) v = claims-IsValid r r' held public_key c h v
Step-IsValid (answers r held id c x h) v = answers-IsValid r held id c x h v
Step-IsValid (releases r held id c h) v = releases-IsValid r held id c h v
Step-IsValid (wakes r held id c h) v = wakes-IsValid r held id c h v
Step-IsValid (notifies r held public_key) v = notifies-IsValid r held public_key v

-- In every state that operations reach from the new registry, where clients register for distinct
-- keys, every queue holds waiters that registered for its key, each of them once, and a waiter that a
-- writer holds a claim on is in no queue.
pub Reach-IsValid : (w : World) → Reach w → IsValid w
Reach-IsValid w start =
    unfold new_registry in
    record {
      keys_of = λ id. [];
      sound = λ k. record { queued = tt; once = refl };
      holds = λ id c h. cc;
    }
Reach-IsValid w (next before step) = Step-IsValid step (Reach-IsValid _ before)

-- In every state that operations reach from the new registry, where clients register for distinct keys,
-- a waiter that is claimed is held by no other writer.
pub try_claim_exclusive :
    (w : World) (r' : WatchRegistry) (public_key : Bytes) (c : Claim)
    → Reach w
    → try_claim w.registry public_key ≡ (some c, r')
    → w.held c.waiter.id ≡ none
try_claim_exclusive w r' public_key c reached h =
    let v = Reach-IsValid w reached in
    let (x, q, front, same, after) =
      claim_front_inv v.keys_of w.registry.next_id w.registry r' public_key c
        (w.registry.waiters public_key) (unfold try_claim in h) in
    elim (Option-cases (w.held c.waiter.id)) [
      | inl e ↦ e
      | inr (d, e) ↦ absurd (
          true≢false (
            sym (at_front c x q same)
            ∙ subst (λ o. has_id c.waiter.id (or_empty o) ≡ false) front
                ((v.holds c.waiter.id d e).nowhere public_key)))
    ]
  where
    at_front :
        (c : Claim) (x : Waiter) (q : List Waiter)
        → c ≡ claim_on x
        → has_id c.waiter.id (x ∷ q) ≡ true
    at_front c x q e = rw e (ground arith)
