-- ===== src/Registry/Invariant.antt =====
-- What every sequence of operations keeps: writers hold claims, clients register and leave, and the
-- queues stay sound.
use invar.Prelude.{
  ℕ, ◌<◌, ◌≡◌, refl, subst, true, false, some, List, [], ◌∷◌, All, ◌==◌, if◌then◌else◌, Bytes,
  bytes_eq, bytes_eq→eq, arith, Bool-cases, inl, inr,
}
use invar.Registry.{
  Waiter, Claim, Queues, put_queue, settle, retain_others, leave_queues, leave_others, leave_all,
  or_empty,
}
use invar.Registry.Queues.{
  has_key, distinct_keys, has_id, distinct_ids, leave_queues_at, claimed_at, or_empty-settle,
  or_empty-without,
}
use invar.Registry.Claims.{IsQueued, QueueIsSound, IsSound, front_IsSound}

module _ (keys_of : ℕ → List Bytes) (bound : ℕ) where
  -- A claim that is held for the waiter `id`: nobody else can reach it.
  pub record IsHeld (queues : Queues) (id : ℕ) (c : Claim) : Type 0 where
    pub own_id : c.waiter.id ≡ id
    pub plain : c.notifies ≡ false
    pub old : id < bound
    pub known : c.waiter.keys ≡ keys_of id
    pub distinct : distinct_keys c.waiter.keys ≡ true
    pub nowhere : (k : Bytes) → has_id id (or_empty (queues k)) ≡ false

  has_id-retain_others_other :
      (id i : ℕ) (q : List Waiter) → has_id i q ≡ false → has_id i (retain_others id q) ≡ false
  unfolding retain_others
  has_id-retain_others_other id i [] h = refl
  has_id-retain_others_other id i (w ∷ q) h = ground (arith, has_id-retain_others_other id i q)

  distinct_ids-retain_others :
      (id : ℕ) (q : List Waiter) → distinct_ids q ≡ true → distinct_ids (retain_others id q) ≡ true
  unfolding retain_others
  distinct_ids-retain_others id [] h = refl
  distinct_ids-retain_others id (w ∷ q) h =
      ground (arith, distinct_ids-retain_others id q, has_id-retain_others_other id w.id q)

  All-retain_others :
      (key : Bytes) (id : ℕ) (q : List Waiter)
      → All (IsQueued keys_of bound key) q
      → All (IsQueued keys_of bound key) (retain_others id q)
  unfolding retain_others
  All-retain_others key id [] h = h
  All-retain_others key id (w ∷ q) h = elim (Bool-cases (w.id == id)) [
    | inl e ↦ rw e (All-retain_others key id q h.1)
    | inr e ↦ rw e (h.0, All-retain_others key id q h.1)
  ]

  pub retain_others-IsSound :
      (key : Bytes) (id : ℕ) (q : List Waiter)
      → QueueIsSound keys_of bound key q
      → QueueIsSound keys_of bound key (retain_others id q)
  retain_others-IsSound key id q h = record {
    queued = All-retain_others key id q h.queued;
    once = distinct_ids-retain_others id q h.once;
  }

  leave_queues_shape :
      (queues : Queues) (id : ℕ) (keys : List Bytes) (k : Bytes)
      → or_empty (leave_queues queues id keys k)
        ≡ (if has_key k keys then retain_others id (or_empty (queues k)) else or_empty (queues k))
  leave_queues_shape queues id keys k =
      rw (leave_queues_at queues id keys k) (elim (Bool-cases (has_key k keys)) [
        | inl e ↦ rw e (or_empty-without id (queues k))
        | inr e ↦ rw e refl
      ])

  pub leave_queues-IsSound :
      (queues : Queues) (id : ℕ) (keys : List Bytes)
      → IsSound keys_of bound queues
      → IsSound keys_of bound (leave_queues queues id keys)
  leave_queues-IsSound queues id keys sound k =
      rw (leave_queues_shape queues id keys k) (elim (Bool-cases (has_key k keys)) [
        | inl e ↦ rw e (retain_others-IsSound k id (or_empty (queues k)) (sound k))
        | inr e ↦ rw e (sound k)
      ])

  pub leave_queues_nowhere :
      (queues : Queues) (id i : ℕ) (keys : List Bytes) (k : Bytes)
      → has_id i (or_empty (queues k)) ≡ false
      → has_id i (or_empty (leave_queues queues id keys k)) ≡ false
  leave_queues_nowhere queues id i keys k h =
      rw (leave_queues_shape queues id keys k) (elim (Bool-cases (has_key k keys)) [
        | inl e ↦ rw e (has_id-retain_others_other id i (or_empty (queues k)) h)
        | inr e ↦ rw e h
      ])

  pub leave_all-IsSound :
      (queues : Queues) (ws : List Waiter)
      → IsSound keys_of bound queues
      → IsSound keys_of bound (leave_all queues ws)
  unfolding leave_all
  leave_all-IsSound queues [] sound = sound
  leave_all-IsSound queues (w ∷ ws) sound =
      leave_all-IsSound (leave_queues queues w.id w.keys) ws
        (leave_queues-IsSound queues w.id w.keys sound)

  pub leave_all_nowhere :
      (queues : Queues) (ws : List Waiter) (i : ℕ) (k : Bytes)
      → has_id i (or_empty (queues k)) ≡ false
      → has_id i (or_empty (leave_all queues ws k)) ≡ false
  unfolding leave_all
  leave_all_nowhere queues [] i k h = h
  leave_all_nowhere queues (w ∷ ws) i k h =
      leave_all_nowhere (leave_queues queues w.id w.keys) ws i k
        (leave_queues_nowhere queues w.id i w.keys k h)

  claimed_shape :
      (queues : Queues) (public_key k : Bytes) (w : Waiter) (q : List Waiter)
      → or_empty (leave_others (put_queue queues public_key (settle q)) w.id public_key w.keys k)
        ≡ (if bytes_eq public_key k
            then q
            else if has_key k w.keys
            then retain_others w.id (or_empty (queues k))
            else or_empty (queues k))
  claimed_shape queues public_key k w q =
      rw (claimed_at queues public_key k w q) (elim (Bool-cases (bytes_eq public_key k)) [
        | inl e ↦ rw e (or_empty-settle q)
        | inr e ↦ rw e (elim (Bool-cases (has_key k w.keys)) [
          | inl n ↦ rw n (or_empty-without w.id (queues k))
          | inr n ↦ rw n refl
        ])
      ])

  pub claimed-IsSound :
      (queues : Queues) (public_key : Bytes) (w : Waiter) (q : List Waiter)
      → IsSound keys_of bound queues
      → queues public_key ≡ some (w ∷ q)
      → IsSound keys_of bound
          (leave_others (put_queue queues public_key (settle q)) w.id public_key w.keys)
  claimed-IsSound queues public_key w q sound front k =
      rw (claimed_shape queues public_key k w q) (elim (Bool-cases (bytes_eq public_key k)) [
        | inl e ↦
            rw e (subst (λ j. QueueIsSound keys_of bound j q) (bytes_eq→eq public_key k e) behind)
        | inr e ↦ rw e (elim (Bool-cases (has_key k w.keys)) [
          | inl n ↦ rw n (retain_others-IsSound k w.id (or_empty (queues k)) (sound k))
          | inr n ↦ rw n (sound k)
        ])
      ])
    where
      claimed : QueueIsSound keys_of bound public_key (w ∷ q)
      claimed = front_IsSound keys_of bound queues public_key w q sound front

      behind : QueueIsSound keys_of bound public_key q
      behind = record { queued = claimed.queued.1; once = ground (arith, claimed.once) }

  pub claimed_nowhere :
      (queues : Queues) (public_key k : Bytes) (w : Waiter) (q : List Waiter) (i : ℕ)
      → queues public_key ≡ some (w ∷ q)
      → ((j : Bytes) → has_id i (or_empty (queues j)) ≡ false)
      → has_id i (
          or_empty (leave_others (put_queue queues public_key (settle q)) w.id public_key w.keys k))
        ≡ false
  claimed_nowhere queues public_key k w q i front h =
      rw (claimed_shape queues public_key k w q) (elim (Bool-cases (bytes_eq public_key k)) [
        | inl e ↦
            rw e (ground (arith, subst (λ o. has_id i (or_empty o) ≡ false) front (h public_key)))
        | inr e ↦ rw e (elim (Bool-cases (has_key k w.keys)) [
          | inl n ↦ rw n (has_id-retain_others_other w.id i (or_empty (queues k)) (h k))
          | inr n ↦ rw n (h k)
        ])
      ])
