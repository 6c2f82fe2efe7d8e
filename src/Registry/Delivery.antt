-- ===== src/Registry/Delivery.antt =====
-- What a blocked client receives, and the versions that WATCH compares.
use invar.Prelude.{
  ℕ, suc, ◌+◌, ◌%◌, ◌^◌, ◌<◌, ◌≡◌, ◌∙◌, refl, Option, some, List, [], ◌∷◌, ◌==◌, ==_iff, ap, Bool,
  true, false, ◌&&◌, ◌||◌, if◌then◌else◌, Bytes, bytes_eq, bytes_eq→eq, arith, Bool-cases, inl, inr,
}
use invar.Registry.{
  Waiter, BlockResult, appended, Channel, waiting, delivered, WatchRegistry, or_empty, or_zero,
  WaitKind, pop, stream, is_stream, set_channel, send, send_all, stream_waiters,
  wake_stream_waiters, get_version, bump, bump_all, bump_versions,
}
use invar.Registry.Queues.{has_id}

sent_delivered :
    (channel : ℕ → Channel) (result : Option BlockResult) (id i : ℕ) (x : BlockResult)
    → channel i ≡ delivered x
    → set_channel channel id (send result (channel id)) i ≡ delivered x
sent_delivered channel result id i x h = elim (Bool-cases (id == i)) [
  | inl e ↦ rw (e, (==_iff id i).0 e, h) refl
  | inr e ↦ rw e h
]

send_all_delivered :
    (channel : ℕ → Channel) (result : Option BlockResult) (ws : List Waiter) (i : ℕ)
    (x : BlockResult)
    → channel i ≡ delivered x
    → send_all channel result ws i ≡ delivered x
unfolding send_all
send_all_delivered channel result [] i x h = h
send_all_delivered channel result (w ∷ ws) i x h =
    send_all_delivered (set_channel channel w.id (send result (channel w.id))) result ws i x
      (sent_delivered channel result w.id i x h)

-- Every waiter in the list whose sender is there is sent the result, and nobody else is.
send_all_lem :
    (channel : ℕ → Channel) (x : BlockResult) (ws : List Waiter) (i : ℕ)
    → channel i ≡ waiting
    → send_all channel (some x) ws i ≡ (if has_id i ws then delivered x else waiting)
unfolding send_all
send_all_lem channel x [] i h = h
send_all_lem channel x (w ∷ ws) i h = elim (Bool-cases (w.id == i)) [
  | inl e ↦ rw e (
      send_all_delivered (set_channel channel w.id (send (some x) (channel w.id))) (some x) ws i x
        (rw (e, (==_iff w.id i).0 e, h) refl))
  | inr e ↦
      rw e (send_all_lem (set_channel channel w.id (send (some x) (channel w.id))) x ws i (rw e h))
]

-- Whether the queue holds a waiter of the identifier that reads the stream.
abbrev pub reads_stream : ℕ → List Waiter → Bool
reads_stream id [] = false
reads_stream id (w ∷ q) =
    w.id == id && elim w.kind [ stream ↦ true | pop want_min ↦ false ] || reads_stream id q

has_id-stream_waiters : (i : ℕ) (q : List Waiter) → has_id i (stream_waiters q) ≡ reads_stream i q
unfolding stream_waiters
has_id-stream_waiters i [] = refl
has_id-stream_waiters i (w ∷ q) = by_kind w.kind (has_id-stream_waiters i q)
  where
    by_kind :
        (kind : WaitKind)
        → has_id i (stream_waiters q) ≡ reads_stream i q
        → has_id i (if is_stream kind then w ∷ stream_waiters q else stream_waiters q)
          ≡ (w.id == i && elim kind [ stream ↦ true | pop want_min ↦ false ] || reads_stream i q)
    by_kind stream rest = ground (arith, rest)
    by_kind (pop want_min) rest = ground (arith, rest)

-- A stream notification is delivered to exactly the waiters in the queue of the stream at that moment
-- that read it, of those that wait for their result; no other of them receives anything. It names the
-- stream.
pub wake_stream_waiters_lem :
    (r : WatchRegistry) (public_key : Bytes) (i : ℕ)
    → r.channel i ≡ waiting
    → (wake_stream_waiters r public_key).channel i ≡ (
        if reads_stream i (or_empty (r.waiters public_key))
        then delivered (appended public_key)
        else waiting)
wake_stream_waiters_lem r public_key i h =
    unfold wake_stream_waiters in
    (send_all_lem r.channel (appended public_key) (stream_waiters (or_empty (r.waiters public_key)))
        i h
      ∙ ap (λ (b : Bool). if b then delivered (appended public_key) else waiting)
          (has_id-stream_waiters i (or_empty (r.waiters public_key))))

-- How often a key stands in a list.
abbrev pub times : Bytes → List Bytes → ℕ
times k [] = 0
times k (key ∷ keys) = if bytes_eq key k then suc (times k keys) else times k keys

bump_lem :
    (versions : Bytes → Option ℕ) (key k : Bytes)
    → or_zero (versions k) < 2 ^ 64
    → or_zero (bump versions key k) ≡ (or_zero (versions k) + times k (key ∷ [])) % 2 ^ 64
unfolding bump
bump_lem versions key k h = elim (Bool-cases (bytes_eq key k)) [
  | inl e ↦ rw (e, bytes_eq→eq key k e) (omega arith)
  | inr e ↦ rw e (omega arith)
]

bump_all_lem :
    (versions : Bytes → Option ℕ) (keys : List Bytes) (k : Bytes)
    → or_zero (versions k) < 2 ^ 64
    → or_zero (bump_all versions keys k) ≡ (or_zero (versions k) + times k keys) % 2 ^ 64
unfolding bump_all
bump_all_lem versions [] k h = omega arith
bump_all_lem versions (key ∷ keys) k h =
    let one = bump_lem versions key k h in
    bump_all_lem (bump versions key) keys k (omega (arith, one)) ∙ ground (arith, one)

-- A commit raises the version of a key by the number of times that the key was written, modulo
-- 2 ^ 64, and no other version.
pub get_version-bump_versions :
    (r : WatchRegistry) (keys : List Bytes) (k : Bytes)
    → get_version r k < 2 ^ 64
    → get_version (bump_versions r keys) k ≡ (get_version r k + times k keys) % 2 ^ 64
get_version-bump_versions r keys k h =
    unfold get_version bump_versions in
    bump_all_lem r.write_versions keys k (unfold get_version in h)

bump_mod :
    (versions : Bytes → Option ℕ) (key k : Bytes)
    → or_zero (bump versions key k) % 2 ^ 64 ≡ (or_zero (versions k) + times k (key ∷ [])) % 2 ^ 64
unfolding bump
bump_mod versions key k = elim (Bool-cases (bytes_eq key k)) [
  | inl e ↦ rw (e, bytes_eq→eq key k e) (omega arith)
  | inr e ↦ rw e (omega arith)
]

bump_all_mod :
    (versions : Bytes → Option ℕ) (keys : List Bytes) (k : Bytes)
    → or_zero (bump_all versions keys k) % 2 ^ 64 ≡ (or_zero (versions k) + times k keys) % 2 ^ 64
unfolding bump_all
bump_all_mod versions [] k = omega arith
bump_all_mod versions (key ∷ keys) k =
    let one = bump_mod versions key k in
    bump_all_mod (bump versions key) keys k ∙ ground (arith, one)

-- Modulo 2 ^ 64, this holds for any counter.
pub get_version-bump_versions_mod :
    (r : WatchRegistry) (keys : List Bytes) (k : Bytes)
    → get_version (bump_versions r keys) k % 2 ^ 64 ≡ (get_version r k + times k keys) % 2 ^ 64
get_version-bump_versions_mod r keys k =
    unfold get_version bump_versions in bump_all_mod r.write_versions keys k
