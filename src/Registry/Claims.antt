-- ===== src/Registry/Claims.antt =====
-- A waiter that a writer claimed is in no queue, until the claim is released.
use invar.Prelude.{
  ℕ, ◌<◌, ◌≡◌, ◌≢◌, ◌∙◌, refl, sym, ap, subst, true, false, Option, none, some, List, [], ◌∷◌, All,
  ◌==◌, ==_iff, if◌then◌else◌, Bytes, bytes_eq, bytes_eq→eq, arith, Bool-cases, inl, inr,
}
use mathlib.Core.Bool.{false≢true}
use invar.Registry.{
  Waiter, Claim, Queues, WatchRegistry, put_queue, settle, retain_others, leave_others, or_empty,
  push_front, claim_on, claim_front, try_claim,
}
use invar.Registry.Queues.{
  has_key, distinct_keys, has_id, distinct_ids, claimed_at, push_front_at, has_id-without,
  or_empty-settle, or_empty-without, retain_others_absent,
}

-- `keys_of` tells the keys that each id below `next` was registered with.
module _ (keys_of : ℕ → List Bytes) (next : ℕ) where
  pub record IsQueued (key : Bytes) (w : Waiter) : Type 0 where
    pub old : w.id < next
    pub known : w.keys ≡ keys_of w.id
    pub at_key : has_key key w.keys ≡ true
    pub distinct : distinct_keys w.keys ≡ true

  pub record QueueIsSound (key : Bytes) (q : List Waiter) : Type 0 where
    pub queued : All (IsQueued key) q
    pub once : distinct_ids q ≡ true

  -- Every queue holds waiters that registered for its key, each of them once.
  abbrev pub IsSound : Queues → Type 0
  IsSound queues = (key : Bytes) → QueueIsSound key (or_empty (queues key))

  absent :
      (key : Bytes) (id : ℕ) (q : List Waiter)
      → All (IsQueued key) q
      → has_key key (keys_of id) ≡ false
      → has_id id q ≡ false
  absent key id [] h other = refl
  absent key id (w ∷ q) h other = elim (Bool-cases (w.id == id)) [
    | inl e ↦
        let here : has_key key (keys_of w.id) ≡ true =
          ap (has_key key) (sym h.0.known) ∙ h.0.at_key in
        absurd (
          false≢true
            (sym other ∙ ap (λ i. has_key key (keys_of i)) (sym ((==_iff w.id id).0 e)) ∙ here))
    | inr e ↦ rw e (absent key id q h.1 other)
  ]

  pub front_IsSound :
      (queues : Queues) (public_key : Bytes) (w : Waiter) (q : List Waiter)
      → IsSound queues
      → queues public_key ≡ some (w ∷ q)
      → QueueIsSound public_key (w ∷ q)
  front_IsSound queues public_key w q sound front =
      subst (λ o. QueueIsSound public_key (or_empty o)) front (sound public_key)

  pub first_once :
      (queues : Queues) (public_key : Bytes) (w : Waiter) (q : List Waiter)
      → IsSound queues
      → queues public_key ≡ some (w ∷ q)
      → has_id w.id q ≡ false
  first_once queues public_key w q sound front =
      ground (arith, (front_IsSound queues public_key w q sound front).once)

  pub gone :
      (queues : Queues) (public_key k : Bytes) (w : Waiter) (q : List Waiter)
      → IsSound queues
      → queues public_key ≡ some (w ∷ q)
      → has_id w.id (
          or_empty (leave_others (put_queue queues public_key (settle q)) w.id public_key w.keys k))
        ≡ false
  gone queues public_key k w q sound front =
      rw (claimed_at queues public_key k w q) (elim (Bool-cases (bytes_eq public_key k)) [
        | inl e ↦ rw e (ap (has_id w.id) (or_empty-settle q) ∙ not_again)
        | inr e ↦ rw e (elim (Bool-cases (has_key k w.keys)) [
          | inl n ↦ rw n (has_id-without w.id (queues k))
          | inr n ↦ rw n (
              absent k w.id (or_empty (queues k)) (sound k).queued
                (ap (has_key k) (sym claimed.queued.0.known) ∙ n))
        ])
      ])
    where
      claimed : QueueIsSound public_key (w ∷ q)
      claimed = front_IsSound queues public_key w q sound front

      not_again : has_id w.id q ≡ false
      not_again = first_once queues public_key w q sound front

  some_claim : (a b : Claim) → ◌≡◌ {A = Option Claim} (some a) (some b) → b ≡ a
  some_claim a b h = cc

  pub claim_front_inv :
      (r r' : WatchRegistry) (public_key : Bytes) (c : Claim) (o : Option (List Waiter))
      → claim_front r public_key o ≡ (some c, r')
      → (w : Waiter) × (q : List Waiter) × (o ≡ some (w ∷ q))
        × (c ≡ claim_on w)
        × (r' ≡ record r {
          waiters = leave_others (put_queue r.waiters public_key (settle q)) w.id public_key w.keys;
        })
  unfolding claim_front
  claim_front_inv r r' public_key c none h = cc
  claim_front_inv r r' public_key c (some []) h = cc
  claim_front_inv r r' public_key c (some (w ∷ q)) h =
      let claim : ◌≡◌ {A = Option Claim} (some (claim_on w)) (some c) =
        ap (λ (x : Option Claim × WatchRegistry). x.0) h in
      (
        w,
        q,
        refl,
        some_claim (claim_on w) c claim,
        sym (ap (λ (x : Option Claim × WatchRegistry). x.1) h),
      )

  -- A claim takes the waiter out of all queues.
  pub try_claim_leaves :
      (r r' : WatchRegistry) (public_key k : Bytes) (c : Claim)
      → IsSound r.waiters
      → try_claim r public_key ≡ (some c, r')
      → has_id c.waiter.id (or_empty (r'.waiters k)) ≡ false
  try_claim_leaves r r' public_key k c sound h =
      let (w, q, front, same, after) =
        claim_front_inv r r' public_key c (r.waiters public_key) (unfold try_claim in h) in
      rw (same, after) (gone r.waiters public_key k w q sound front)

  -- No two claims that are held at once have the same waiter.
  pub try_claim_once :
      (r r' r'' : WatchRegistry) (public_key other_key : Bytes) (c c' : Claim)
      → IsSound r.waiters
      → try_claim r public_key ≡ (some c, r')
      → try_claim r' other_key ≡ (some c', r'')
      → c'.waiter.id ≢ c.waiter.id
  try_claim_once r r' r'' public_key other_key c c' sound first second e =
      let (w, q, front, same, after) =
        claim_front_inv r' r'' other_key c' (r'.waiters other_key) (unfold try_claim in second) in
      let left : has_id c.waiter.id (w ∷ q) ≡ false =
        subst (λ o. has_id c.waiter.id (or_empty o) ≡ false) front
          (try_claim_leaves r r' public_key other_key c sound first) in
      let found : (w.id == c.waiter.id) ≡ true =
        (==_iff w.id c.waiter.id).1 (sym (ap (λ (x : Claim). x.waiter.id) same) ∙ e) in
      absurd (false≢true (ground (arith, left, found)))

  retain_others_front :
      (w : Waiter) (q : List Waiter) → has_id w.id q ≡ false → retain_others w.id (w ∷ q) ≡ q
  retain_others_front w q h = unfold retain_others in ground (arith, retain_others_absent w.id q h)

  -- The rest of a queue, while a waiter that registered for it is claimed.
  rest_at :
      (queues : Queues) (public_key k : Bytes) (w : Waiter) (q : List Waiter)
      → IsSound queues
      → queues public_key ≡ some (w ∷ q)
      → has_key k w.keys ≡ true
      → or_empty (leave_others (put_queue queues public_key (settle q)) w.id public_key w.keys k)
        ≡ retain_others w.id (or_empty (queues k))
  rest_at queues public_key k w q sound front n =
      rw (claimed_at queues public_key k w q) (elim (Bool-cases (bytes_eq public_key k)) [
        | inl e ↦
            rw (e, sym (ap queues (bytes_eq→eq public_key k e)) ∙ front)
              (or_empty-settle q
                ∙ sym (retain_others_front w q (first_once queues public_key w q sound front)))
        | inr e ↦ rw (e, n) (or_empty-without w.id (queues k))
      ])

  pub released_at :
      (queues : Queues) (public_key k : Bytes) (w : Waiter) (q : List Waiter)
      → IsSound queues
      → queues public_key ≡ some (w ∷ q)
      → push_front
          (leave_others (put_queue queues public_key (settle q)) w.id public_key w.keys)
          w
          w.keys
          k
        ≡ (if has_key k w.keys
            then some (w ∷ retain_others w.id (or_empty (queues k)))
            else queues k)
  released_at queues public_key k w q sound front =
      push_front_at (leave_others (put_queue queues public_key (settle q)) w.id public_key w.keys) w
        w.keys k claimed.queued.0.distinct
      ∙ elim (Bool-cases (has_key k w.keys)) [
        | inl n ↦ rw n (ap (λ x. some (w ∷ x)) (rest_at queues public_key k w q sound front n))
        | inr n ↦
            rw (n, claimed_at queues public_key k w q)
              (elim (Bool-cases (bytes_eq public_key k)) [
                | inl e ↦ absurd (
                    false≢true (
                      sym n
                      ∙ ap (λ x. has_key x w.keys) (sym (bytes_eq→eq public_key k e))
                      ∙ claimed.queued.0.at_key))
                | inr e ↦ rw (e, n) refl
              ])
      ]
    where
      claimed : QueueIsSound public_key (w ∷ q)
      claimed = front_IsSound queues public_key w q sound front
