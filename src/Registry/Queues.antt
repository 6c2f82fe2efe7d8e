-- ===== src/Registry/Queues.antt =====
-- What the loops over a waiter's keys do to one queue.
use invar.Prelude.{
  ℕ, ◌≡◌, ◌∙◌, refl, sym, ap, Bool, true, false, not, Option, none, some, List, [], ◌∷◌, ◌++◌, ◌==◌,
  ◌||◌, ◌&&◌, if◌then◌else◌, Bytes, bytes_eq, bytes_eq→eq, bytes_eq_refl, bytes_eq_sym, arith,
  Bool-cases, inl, inr,
}
use invar.Registry.{
  Waiter, Queues, put_queue, settle, retain_others, without, leave_queue, leave_queues,
  leave_unless, leave_others, or_empty, push_front, push_back,
}

abbrev pub has_key : Bytes → List Bytes → Bool
has_key key [] = false
has_key key (k ∷ keys) = bytes_eq k key || has_key key keys

abbrev pub distinct_keys : List Bytes → Bool
distinct_keys [] = true
distinct_keys (k ∷ keys) = not (has_key k keys) && distinct_keys keys

abbrev pub has_id : ℕ → List Waiter → Bool
has_id id [] = false
has_id id (w ∷ q) = w.id == id || has_id id q

abbrev pub distinct_ids : List Waiter → Bool
distinct_ids [] = true
distinct_ids (w ∷ q) = not (has_id w.id q) && distinct_ids q

pub has_id-retain_others : (id : ℕ) (q : List Waiter) → has_id id (retain_others id q) ≡ false
unfolding retain_others
has_id-retain_others id [] = refl
has_id-retain_others id (w ∷ q) = ground (arith, has_id-retain_others id q)

-- Without the waiter, there is nothing to take out.
pub retain_others_absent : (id : ℕ) (q : List Waiter) → has_id id q ≡ false → retain_others id q ≡ q
unfolding retain_others
retain_others_absent id [] h = refl
retain_others_absent id (w ∷ q) h = ground (arith, retain_others_absent id q)

pub has_id-without :
    (id : ℕ) (o : Option (List Waiter)) → has_id id (or_empty (without id o)) ≡ false
unfolding without
has_id-without id none = refl
has_id-without id (some q) = go (retain_others id q) (has_id-retain_others id q)
  where
    go : (q' : List Waiter) → has_id id q' ≡ false → has_id id (or_empty (settle q')) ≡ false
    go [] h = refl
    go (w ∷ q') h = h

pub without-settle_absent :
    (id : ℕ) (q : List Waiter) → has_id id q ≡ false → without id (settle q) ≡ settle q
unfolding without
without-settle_absent id [] h = refl
without-settle_absent id (w ∷ q) h = ap settle (retain_others_absent id (w ∷ q) h)

pub without_twice : (id : ℕ) (o : Option (List Waiter)) → without id (without id o) ≡ without id o
unfolding without
without_twice id none = refl
without_twice id (some q) =
    without-settle_absent id (retain_others id q) (has_id-retain_others id q)

either_way : (b : Bool) (x : Option (List Waiter)) → (if b then x else x) ≡ x
either_way b x = ground arith

-- The queue of `k`, after the waiter left the queues of `keys`.
pub leave_queues_at :
    (queues : Queues) (id : ℕ) (keys : List Bytes) (k : Bytes)
    → leave_queues queues id keys k ≡ (if has_key k keys then without id (queues k) else queues k)
unfolding leave_queues leave_queue
leave_queues_at queues id [] k = refl
leave_queues_at queues id (key ∷ keys) k =
    leave_queues_at (leave_queue queues id key) id keys k ∙ elim (Bool-cases (bytes_eq key k)) [
      | inl e ↦
          rw (bytes_eq→eq key k e, bytes_eq_refl k, without_twice id (queues k))
            (either_way (has_key k keys) (without id (queues k)))
      | inr e ↦ rw e refl
    ]

pub leave_others_at :
    (queues : Queues) (id : ℕ) (public_key : Bytes) (keys : List Bytes) (k : Bytes)
    → leave_others queues id public_key keys k
      ≡ (if has_key k keys && not (bytes_eq k public_key) then without id (queues k) else queues k)
unfolding leave_others leave_unless leave_queue
leave_others_at queues id public_key [] k = refl
leave_others_at queues id public_key (key ∷ keys) k =
    leave_others_at (leave_unless (bytes_eq key public_key) queues id key) id public_key keys k
    ∙ elim (Bool-cases (bytes_eq key public_key)) [
      | inl p ↦ elim (Bool-cases (bytes_eq key k)) [
        | inl e ↦
            rw (p, e, sym (ap (λ x. bytes_eq x public_key) (bytes_eq→eq key k e)) ∙ p)
              (ground arith)
        | inr e ↦ rw (p, e) refl
      ]
      | inr p ↦ elim (Bool-cases (bytes_eq key k)) [
        | inl e ↦
            rw
              (
                bytes_eq→eq key k e,
                sym (ap (λ x. bytes_eq x public_key) (bytes_eq→eq key k e)) ∙ p,
                bytes_eq_refl k,
                without_twice id (queues k),
              )
              (ground arith)
        | inr e ↦ rw (p, e) refl
      ]
    ]

-- The queue of `k`, after a waiter was put in front of the queues of distinct keys.
pub push_front_at :
    (queues : Queues) (w : Waiter) (keys : List Bytes) (k : Bytes)
    → distinct_keys keys ≡ true
    → push_front queues w keys k
      ≡ (if has_key k keys then some (w ∷ or_empty (queues k)) else queues k)
unfolding push_front
push_front_at queues w [] k h = refl
push_front_at queues w (key ∷ keys) k h =
    push_front_at (put_queue queues key (some (w ∷ or_empty (queues key)))) w keys k
      (ground (arith, h))
    ∙ elim (Bool-cases (bytes_eq key k)) [
      | inl e ↦
          rw (e, sym (ap (λ x. has_key x keys) (bytes_eq→eq key k e)) ∙ absent)
            (ap (λ x. some (w ∷ or_empty (queues x))) (bytes_eq→eq key k e))
      | inr e ↦ rw e refl
    ]
  where
    absent : has_key key keys ≡ false
    absent = ground (arith, h)

pub or_empty-settle : (q : List Waiter) → or_empty (settle q) ≡ q
or_empty-settle [] = refl
or_empty-settle (w ∷ q) = refl

pub or_empty-without :
    (id : ℕ) (o : Option (List Waiter)) → or_empty (without id o) ≡ retain_others id (or_empty o)
unfolding without
or_empty-without id none = unfold retain_others in refl
or_empty-without id (some q) = or_empty-settle (retain_others id q)

-- The queue of `k`, after the front of the queue of `public_key` was claimed.
pub claimed_at :
    (queues : Queues) (public_key k : Bytes) (w : Waiter) (q : List Waiter)
    → leave_others (put_queue queues public_key (settle q)) w.id public_key w.keys k ≡ (
        if bytes_eq public_key k
        then settle q
        else if has_key k w.keys
        then without w.id (queues k)
        else queues k)
claimed_at queues public_key k w q =
    leave_others_at (put_queue queues public_key (settle q)) w.id public_key w.keys k
    ∙ rw (bytes_eq_sym k public_key) (elim (Bool-cases (bytes_eq public_key k)) [
      | inl e ↦ rw e (ground arith)
      | inr e ↦ rw e (ground arith)
    ])

-- The queue of `k`, after a waiter was put behind the queues of distinct keys.
pub push_back_at :
    (queues : Queues) (w : Waiter) (keys : List Bytes) (k : Bytes)
    → distinct_keys keys ≡ true
    → push_back queues w keys k
      ≡ (if has_key k keys then some (or_empty (queues k) ++ w ∷ []) else queues k)
unfolding push_back
push_back_at queues w [] k h = refl
push_back_at queues w (key ∷ keys) k h =
    push_back_at (put_queue queues key (some (or_empty (queues key) ++ w ∷ []))) w keys k
      (ground (arith, h))
    ∙ elim (Bool-cases (bytes_eq key k)) [
      | inl e ↦
          rw (e, sym (ap (λ x. has_key x keys) (bytes_eq→eq key k e)) ∙ absent)
            (ap (λ x. some (or_empty (queues x) ++ w ∷ [])) (bytes_eq→eq key k e))
      | inr e ↦ rw e refl
    ]
  where
    absent : has_key key keys ≡ false
    absent = ground (arith, h)
