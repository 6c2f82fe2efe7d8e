-- ===== src/Registry.antt =====
-- src/redis/common/registry.rs: the clients that block on keys, the claims of writers on them, and
-- the write versions that WATCH compares. The mutex makes each operation one step on the state. A map
-- is a function to an option. The sender that a waiter holds is kept by its id: `waiting` is a sender
-- not yet taken. A counter of 64 bits keeps its wrap-around.
pub mod Queues
pub mod Claims
pub mod Steps
pub mod Invariant
pub mod Reachable
pub mod Exclusive
pub mod Delivery
use invar.Prelude.{
  ℕ, ◌+◌, ◌%◌, ◌^◌, Bool, true, false, not, Option, none, some, List, [], ◌∷◌, ◌++◌, length, ◌==◌,
  ◌||◌, ◌&&◌, if◌then◌else◌, Bytes, bytes_eq,
}

-- A score is the 64 bits of its float.
pub record PopResult : Type 0 where
  pub key : Bytes
  pub member : Bytes
  pub score : ℕ

pub data WaitKind : Type 0 where
  pop : Bool → WaitKind
  stream : WaitKind

-- `Stream` carries the public key of its `StreamResult`.
pub data BlockResult : Type 0 where
  popped : PopResult → BlockResult
  appended : Bytes → BlockResult

pub record Waiter : Type 0 where
  pub id : ℕ
  pub keys : List Bytes
  pub kind : WaitKind

-- A waiter's delivery: the sender is there, or was taken and sent a result, or was dropped.
pub data Channel : Type 0 where
  waiting closed : Channel
  delivered : BlockResult → Channel

pub record Claim : Type 0 where
  pub waiter : Waiter
  pub result : Option BlockResult
  pub notifies : Bool

abbrev pub Queues : Type 0
Queues = Bytes → Option (List Waiter)

pub record WatchRegistry : Type 0 where
  pub waiters : Queues
  pub next_id : ℕ
  pub channel : ℕ → Channel
  pub write_versions : Bytes → Option ℕ
  pub flush_epoch : ℕ

unfoldable pub new_registry : WatchRegistry
new_registry = record {
  waiters = λ key. none;
  next_id = 1;
  channel = λ id. closed;
  write_versions = λ key. none;
  flush_epoch = 0;
}

abbrev pub or_zero : Option ℕ → ℕ
or_zero none = 0
or_zero (some v) = v

unfoldable pub get_version : WatchRegistry → Bytes → ℕ
get_version r key = or_zero (r.write_versions key)

unfoldable pub bump : (Bytes → Option ℕ) → Bytes → Bytes → Option ℕ
bump versions key k =
    if bytes_eq key k then some ((or_zero (versions key) + 1) % 2 ^ 64) else versions k

unfoldable pub bump_all : (Bytes → Option ℕ) → List Bytes → Bytes → Option ℕ
unfolding bump
bump_all versions [] = versions
bump_all versions (key ∷ keys) = bump_all (bump versions key) keys

unfoldable pub bump_versions : WatchRegistry → List Bytes → WatchRegistry
unfolding bump_all
bump_versions r keys = record r { write_versions = bump_all r.write_versions keys }

unfoldable pub bump_flush_epoch : WatchRegistry → WatchRegistry
bump_flush_epoch r = record r { flush_epoch = (r.flush_epoch + 1) % 2 ^ 64 }

abbrev pub put_queue : Queues → Bytes → Option (List Waiter) → Queues
put_queue queues key q k = if bytes_eq key k then q else queues k

-- A queue that is empty is removed from the map.
abbrev pub settle : List Waiter → Option (List Waiter)
settle [] = none
settle (w ∷ q) = some (w ∷ q)

-- `queue.retain(|w| w.id != waiter.id)`
unfoldable pub retain_others : ℕ → List Waiter → List Waiter
retain_others id [] = []
retain_others id (w ∷ q) = let rest = retain_others id q in if w.id == id then rest else w ∷ rest

unfoldable pub without : ℕ → Option (List Waiter) → Option (List Waiter)
unfolding retain_others
without id none = none
without id (some q) = settle (retain_others id q)

-- The waiter leaves the queue of one key.
unfoldable pub leave_queue : Queues → ℕ → Bytes → Queues
unfolding without
leave_queue queues id key = put_queue queues key (without id (queues key))

unfoldable pub leave_queues : Queues → ℕ → List Bytes → Queues
unfolding leave_queue
leave_queues queues id [] = queues
leave_queues queues id (key ∷ keys) = leave_queues (leave_queue queues id key) id keys

-- `if key == public_key { continue; }`
unfoldable pub leave_unless : Bool → Queues → ℕ → Bytes → Queues
unfolding leave_queue
leave_unless true queues id key = queues
leave_unless false queues id key = leave_queue queues id key

-- The loop of `try_claim`, which skips the key that was claimed.
unfoldable pub leave_others : Queues → ℕ → Bytes → List Bytes → Queues
unfolding leave_unless
leave_others queues id public_key [] = queues
leave_others queues id public_key (key ∷ keys) =
    leave_others (leave_unless (bytes_eq key public_key) queues id key) id public_key keys

abbrev pub claim_on : Waiter → Claim
claim_on w = record { waiter = w; result = none; notifies = false }

unfoldable pub claim_front :
    WatchRegistry → Bytes → Option (List Waiter) → Option Claim × WatchRegistry
unfolding leave_others
claim_front r public_key none = (none, r)
claim_front r public_key (some []) = (none, r)
claim_front r public_key (some (w ∷ q)) = (
  some (claim_on w),
  record r {
    waiters = leave_others (put_queue r.waiters public_key (settle q)) w.id public_key w.keys;
  },
)

unfoldable pub try_claim : WatchRegistry → Bytes → Option Claim × WatchRegistry
unfolding claim_front
try_claim r public_key = claim_front r public_key (r.waiters public_key)

unfoldable pub stream_notification : Bytes → Claim
stream_notification public_key = record {
  waiter = record { id = 0; keys = public_key ∷ []; kind = stream };
  result = none;
  notifies = true;
}

abbrev pub or_empty : Option (List Waiter) → List Waiter
or_empty none = []
or_empty (some q) = q

unfoldable pub push_front : Queues → Waiter → List Bytes → Queues
push_front queues w [] = queues
push_front queues w (key ∷ keys) =
    push_front (put_queue queues key (some (w ∷ or_empty (queues key)))) w keys

unfoldable pub push_back : Queues → Waiter → List Bytes → Queues
push_back queues w [] = queues
push_back queues w (key ∷ keys) =
    push_back (put_queue queues key (some (or_empty (queues key) ++ w ∷ []))) w keys

unfoldable pub release_front : WatchRegistry → Claim → WatchRegistry
unfolding push_front
release_front r claim =
    if claim.notifies
    then r
    else record r { waiters = push_front r.waiters claim.waiter claim.waiter.keys }

abbrev pub set_channel : (ℕ → Channel) → ℕ → Channel → ℕ → Channel
set_channel channel id c i = if id == i then c else channel i

unfoldable pub register : WatchRegistry → List Bytes → WaitKind → Waiter × WatchRegistry
unfolding push_back
register r keys kind =
    let w : Waiter = record { id = r.next_id; keys = keys; kind = kind } in
    (
      w,
      record r {
        waiters = push_back r.waiters w keys;
        next_id = (r.next_id + 1) % 2 ^ 64;
        channel = set_channel r.channel r.next_id waiting;
      },
    )

-- `queue.len() != before`, for any of the keys in turn.
unfoldable pub any_removed : Queues → ℕ → List Bytes → Bool
unfolding leave_queue retain_others
any_removed queues id [] = false
any_removed queues id (key ∷ keys) =
    not (length (retain_others id (or_empty (queues key))) == length (or_empty (queues key)))
    || any_removed (leave_queue queues id key) id keys

unfoldable pub remove_waiter : WatchRegistry → Waiter → Bool × WatchRegistry
unfolding any_removed leave_queues
remove_waiter r w =
    (any_removed r.waiters w.id w.keys, record r { waiters = leave_queues r.waiters w.id w.keys })

abbrev pub is_stream : WaitKind → Bool
is_stream stream = true
is_stream (pop want_min) = false

unfoldable pub stream_waiters : List Waiter → List Waiter
stream_waiters [] = []
stream_waiters (w ∷ q) = let rest = stream_waiters q in if is_stream w.kind then w ∷ rest else rest

unfoldable pub leave_all : Queues → List Waiter → Queues
unfolding leave_queues
leave_all queues [] = queues
leave_all queues (w ∷ ws) = leave_all (leave_queues queues w.id w.keys) ws

-- What the taken sender sends. A sender that was taken before sends nothing.
abbrev pub send : Option BlockResult → Channel → Channel
send result closed = closed
send result (delivered x) = delivered x
send none waiting = closed
send (some x) waiting = delivered x

unfoldable pub send_all : (ℕ → Channel) → Option BlockResult → List Waiter → ℕ → Channel
send_all channel result [] = channel
send_all channel result (w ∷ ws) =
    send_all (set_channel channel w.id (send result (channel w.id))) result ws

unfoldable pub wake_stream_waiters : WatchRegistry → Bytes → WatchRegistry
unfolding stream_waiters leave_all send_all
wake_stream_waiters r public_key =
    let woken = stream_waiters (or_empty (r.waiters public_key)) in
    record r {
      waiters = leave_all r.waiters woken;
      channel = send_all r.channel (some (appended public_key)) woken;
    }

-- `keys[0]` of a notification is its one key; the index is out of range for no keys.
abbrev pub first_key : List Bytes → Bytes
first_key [] = []
first_key (key ∷ keys) = key

unfoldable pub wake : WatchRegistry → Claim → WatchRegistry
unfolding wake_stream_waiters
wake r claim =
    if claim.notifies then wake_stream_waiters r (first_key claim.waiter.keys) else record r {
      channel =
          set_channel r.channel claim.waiter.id (send claim.result (r.channel claim.waiter.id));
    }
