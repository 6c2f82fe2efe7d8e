-- ===== src/Registry/Reachable.antt =====
-- Every reachable state of the registry is valid.
use invar.Prelude.{
  ℕ, ◌⊎◌, ◌<◌, ◌≡◌, ◌≢◌, ◌∙◌, refl, sym, ap, subst, false, Option, none, some, List, ◌∷◌, ◌==◌,
  ==_iff, Bytes, arith, Bool-cases, inl, inr,
}
use mathlib.Core.Bool.{false≢true}
use invar.Registry.{
  Waiter, Claim, BlockResult, Queues, WatchRegistry, put_queue, settle, leave_others,
  stream_waiters, or_empty, push_front, claim_on, try_claim, release_front, remove_waiter,
  wake_stream_waiters, wake,
}
use invar.Registry.Queues.{has_key, has_id, push_front_at}
use invar.Registry.Steps.{World, set_held}
use invar.Registry.Claims.{IsSound, front_IsSound, claim_front_inv, gone}
use invar.Registry.Invariant.{
  IsHeld, leave_queues-IsSound, leave_queues_nowhere, leave_all-IsSound, leave_all_nowhere,
  claimed-IsSound, claimed_nowhere,
}

-- Every queue is sound, and every waiter that a writer holds is in no queue.
pub record IsValid (w : World) : Type 0 where
  pub keys_of : ℕ → List Bytes
  pub sound : IsSound keys_of w.registry.next_id w.registry.waiters
  pub holds :
      (id : ℕ) (c : Claim)
      → w.held id ≡ some c
      → IsHeld keys_of w.registry.next_id w.registry.waiters id c

one_claim : (a b : Claim) → ◌≡◌ {A = Option Claim} (some a) (some b) → a ≡ b
one_claim a b h = cc

-- What is in the table of claims after one entry changed.
pub held_cases :
    (held : ℕ → Option Claim) (id i : ℕ) (o : Option Claim) (c : Claim)
    → set_held held id o i ≡ some c
    → ((id ≡ i) × (o ≡ some c)) ⊎ ((id ≢ i) × (held i ≡ some c))
held_cases held id i o c h = elim (Bool-cases (id == i)) [
  | inl e ↦ inl ((==_iff id i).0 e, rw e at h)
  | inr e ↦ inr ((λ x. false≢true (sym e ∙ (==_iff id i).1 x)), rw e at h)
]

pub leaves-IsValid :
    (r : WatchRegistry) (held : ℕ → Option Claim) (w : Waiter)
    → IsValid (record { registry = r; held = held })
    → IsValid (record { registry = (remove_waiter r w).1; held = held })
leaves-IsValid r held w v =
    unfold remove_waiter in
    record {
      keys_of = v.keys_of;
      sound = leave_queues-IsSound v.keys_of r.next_id r.waiters w.id w.keys v.sound;
      holds = λ id c h.
          let x = v.holds id c h in
          record {
            own_id = x.own_id;
            plain = x.plain;
            old = x.old;
            known = x.known;
            distinct = x.distinct;
            nowhere = λ k.
                leave_queues_nowhere v.keys_of r.next_id r.waiters w.id id w.keys k (x.nowhere k);
          };
    }

pub notifies-IsValid :
    (r : WatchRegistry) (held : ℕ → Option Claim) (public_key : Bytes)
    → IsValid (record { registry = r; held = held })
    → IsValid (record { registry = wake_stream_waiters r public_key; held = held })
notifies-IsValid r held public_key v =
    unfold wake_stream_waiters in
    let woken = stream_waiters (or_empty (r.waiters public_key)) in
    record {
      keys_of = v.keys_of;
      sound = leave_all-IsSound v.keys_of r.next_id r.waiters woken v.sound;
      holds = λ id c h.
          let x = v.holds id c h in
          record {
            own_id = x.own_id;
            plain = x.plain;
            old = x.old;
            known = x.known;
            distinct = x.distinct;
            nowhere = λ k. leave_all_nowhere v.keys_of r.next_id r.waiters woken id k (x.nowhere k);
          };
    }

claimed-IsHeld :
    (keys_of : ℕ → List Bytes) (bound : ℕ) (queues : Queues) (public_key : Bytes) (w : Waiter)
    (q : List Waiter)
    → IsSound keys_of bound queues
    → queues public_key ≡ some (w ∷ q)
    → IsHeld keys_of bound
        (leave_others (put_queue queues public_key (settle q)) w.id public_key w.keys)
        w.id
        (claim_on w)
claimed-IsHeld keys_of bound queues public_key w q sound front =
    let x = (front_IsSound keys_of bound queues public_key w q sound front).queued.0 in
    record {
      own_id = refl;
      plain = refl;
      old = x.old;
      known = x.known;
      distinct = x.distinct;
      nowhere = λ k. gone keys_of bound queues public_key k w q sound front;
    }

pub claims-IsValid :
    (r r' : WatchRegistry) (held : ℕ → Option Claim) (public_key : Bytes) (c : Claim)
    → try_claim r public_key ≡ (some c, r')
    → IsValid (record { registry = r; held = held })
    → IsValid (record { registry = r'; held = set_held held c.waiter.id (some c) })
claims-IsValid r r' held public_key c h v =
    let (w, q, front, same, after) =
      claim_front_inv v.keys_of r.next_id r r' public_key c (r.waiters public_key)
        (unfold try_claim in h) in
    let queues : Queues =
      leave_others (put_queue r.waiters public_key (settle q)) w.id public_key w.keys in
    rw (same, after)
      (record {
        keys_of = v.keys_of;
        sound = claimed-IsSound v.keys_of r.next_id r.waiters public_key w q v.sound front;
        holds = λ id d g. elim (held_cases held w.id id (some (claim_on w)) d g) [
          | inl (e, new) ↦
              subst (λ i. IsHeld v.keys_of r.next_id queues i d) e
                (subst (IsHeld v.keys_of r.next_id queues w.id) (one_claim (claim_on w) d new)
                  (claimed-IsHeld v.keys_of r.next_id r.waiters public_key w q v.sound front))
          | inr (n, old) ↦
              let x = v.holds id d old in
              record {
                own_id = x.own_id;
                plain = x.plain;
                old = x.old;
                known = x.known;
                distinct = x.distinct;
                nowhere = λ k.
                    claimed_nowhere v.keys_of r.next_id r.waiters public_key k w q id front
                      x.nowhere;
              }
        ];
      })

pub answers-IsValid :
    (r : WatchRegistry) (held : ℕ → Option Claim) (id : ℕ) (c : Claim) (x : BlockResult)
    → held id ≡ some c
    → IsValid (record { registry = r; held = held })
    → IsValid
        (record { registry = r; held = set_held held id (some (record c { result = some x })) })
answers-IsValid r held id c x h v = record {
  keys_of = v.keys_of;
  sound = v.sound;
  holds = λ i d g. elim (held_cases held id i (some (record c { result = some x })) d g) [
    | inl (e, new) ↦
        subst (λ j. IsHeld v.keys_of r.next_id r.waiters j d) e
          (subst (IsHeld v.keys_of r.next_id r.waiters id)
            (one_claim (record c { result = some x }) d new)
            (let y = v.holds id c h in
              record {
                own_id = y.own_id;
                plain = y.plain;
                old = y.old;
                known = y.known;
                distinct = y.distinct;
                nowhere = y.nowhere;
              }))
    | inr (n, old) ↦ v.holds i d old
  ];
}

pub wakes-IsValid :
    (r : WatchRegistry) (held : ℕ → Option Claim) (id : ℕ) (c : Claim)
    → held id ≡ some c
    → IsValid (record { registry = r; held = held })
    → IsValid (record { registry = wake r c; held = set_held held id none })
wakes-IsValid r held id c h v =
    unfold wake in
    rw (v.holds id c h).plain (record {
      keys_of = v.keys_of;
      sound = v.sound;
      holds = λ i d g. elim (held_cases held id i none d g) [
        | inl (e, new) ↦ cc
        | inr (n, old) ↦ v.holds i d old
      ];
    })

front_again-IsSound :
    (keys_of : ℕ → List Bytes) (bound : ℕ) (queues : Queues) (c : Claim) (id : ℕ)
    → IsSound keys_of bound queues
    → IsHeld keys_of bound queues id c
    → IsSound keys_of bound (push_front queues c.waiter c.waiter.keys)
front_again-IsSound keys_of bound queues c id sound x k =
    rw (push_front_at queues c.waiter c.waiter.keys k x.distinct)
      (elim (Bool-cases (has_key k c.waiter.keys)) [
        | inl n ↦ rw n (record {
          queued = (
            record {
              old = subst (λ i. i < bound) (sym x.own_id) x.old;
              known = x.known ∙ ap keys_of (sym x.own_id);
              at_key = n;
              distinct = x.distinct;
            },
            (sound k).queued,
          );
          once = ground (
            arith,
            (sound k).once,
            subst (λ i. has_id i (or_empty (queues k)) ≡ false) (sym x.own_id) (x.nowhere k),
          );
        })
        | inr n ↦ rw n (sound k)
      ])

front_again_nowhere :
    (keys_of : ℕ → List Bytes) (bound : ℕ) (queues : Queues) (c : Claim) (id i : ℕ) (k : Bytes)
    → IsHeld keys_of bound queues id c
    → id ≢ i
    → has_id i (or_empty (queues k)) ≡ false
    → has_id i (or_empty (push_front queues c.waiter c.waiter.keys k)) ≡ false
front_again_nowhere keys_of bound queues c id i k x n h =
    rw (push_front_at queues c.waiter c.waiter.keys k x.distinct)
      (elim (Bool-cases (has_key k c.waiter.keys)) [
        | inl e ↦ rw e (elim (Bool-cases (c.waiter.id == i)) [
          | inl y ↦ absurd (n (sym x.own_id ∙ (==_iff c.waiter.id i).0 y))
          | inr y ↦ rw y h
        ])
        | inr e ↦ rw e h
      ])

pub releases-IsValid :
    (r : WatchRegistry) (held : ℕ → Option Claim) (id : ℕ) (c : Claim)
    → held id ≡ some c
    → IsValid (record { registry = r; held = held })
    → IsValid (record { registry = release_front r c; held = set_held held id none })
releases-IsValid r held id c h v =
    let mine = v.holds id c h in
    unfold release_front in
    rw mine.plain (record {
      keys_of = v.keys_of;
      sound = front_again-IsSound v.keys_of r.next_id r.waiters c id v.sound mine;
      holds = λ i d g. elim (held_cases held id i none d g) [
        | inl (e, new) ↦ cc
        | inr (n, old) ↦
            let x = v.holds i d old in
            record {
              own_id = x.own_id;
              plain = x.plain;
              old = x.old;
              known = x.known;
              distinct = x.distinct;
              nowhere = λ k.
                  front_again_nowhere v.keys_of r.next_id r.waiters c id i k mine n (x.nowhere k);
            }
      ];
    })
