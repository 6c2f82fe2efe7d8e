-- ===== src/Multi.antt =====
-- src/redis/common/session.rs: the queue and the flags of MULTI. The database and wire halves of an
-- operation are of a type `Op` that the session only stores.
pub mod Block
use invar.Prelude.{
  ℕ, Bool, true, false, not, Option, none, some, List, [], ◌∷◌, ◌++◌, ◌&&◌, ◌||◌, if◌then◌else◌,
  Result, ok, err, Bytes, bytes_eq,
}
use invar.Watch.{Watched}

pub record QueuedOp (Op : Type 0) : Type 0 where
  pub op : Op
  pub is_mutating : Bool
  pub allowed_in_tx : Bool
  pub abort_in_tx : Bool
  pub keys : Option (List Bytes)

pub record Session (Op : Type 0) : Type 0 where
  pub queue : List (QueuedOp Op)
  pub in_multi : Bool
  pub dirty_exec : Bool
  pub in_script : Bool
  pub should_close : Bool
  pub watched_keys : List Watched

pub data SessionError : Type 0 where
  not_in_multi : SessionError

abbrev pub is_watched : List Watched → Bytes → Bool
is_watched [] key = false
is_watched (w ∷ ws) key = bytes_eq w.key key || is_watched ws key

abbrev pub any_watched : List Watched → List Bytes → Bool
any_watched ws [] = false
any_watched ws (key ∷ keys) = is_watched ws key || any_watched ws keys

abbrev pub touches : List Watched → Option (List Bytes) → Bool
touches ws none = false
touches ws (some keys) = any_watched ws keys

module _ {Op : Type 0} where
  unfoldable pub enter_multi : Session Op → Session Op
  enter_multi s = record s { in_multi = true; dirty_exec = false }

  unfoldable pub exit_multi : Session Op → Bool → Result SessionError (Session Op)
  exit_multi s discard =
      if not s.in_multi
      then err not_in_multi
      else if discard
      then ok (record s { in_multi = false; queue = []; dirty_exec = false; watched_keys = [] })
      else ok (record s { in_multi = false })

  unfoldable pub mark_dirty : Session Op → Session Op
  mark_dirty s = if s.in_multi then record s { dirty_exec = true } else s

  unfoldable pub enter_script : Session Op → Session Op
  enter_script s = record s { in_script = true }

  unfoldable pub exit_script : Session Op → Session Op
  exit_script s = record s { in_script = false }

  unfoldable pub should_block : Session Op → Bool
  should_block s = not s.in_multi && not s.in_script

  unfoldable pub request_close : Session Op → Session Op
  request_close s = record s { should_close = true }

  -- The answer tells whether the reply is `+QUEUED`.
  unfoldable pub enqueue_op : Session Op → QueuedOp Op → Bool × Session Op
  enqueue_op s op = (s.in_multi, record s { queue = s.queue ++ op ∷ [] })

  abbrev pub any_touches : List Watched → List (QueuedOp Op) → Bool
  any_touches ws [] = false
  any_touches ws (op ∷ queue) = touches ws op.keys || any_touches ws queue

  unfoldable pub needs_ssi : Session Op → Bool
  needs_ssi s = elim s.watched_keys [ [] ↦ false | w ∷ ws ↦ any_touches (w ∷ ws) s.queue ]

  abbrev pub any_mutating : List (QueuedOp Op) → Bool
  any_mutating [] = false
  any_mutating (op ∷ queue) = op.is_mutating || any_mutating queue

  unfoldable pub needs_writable_tx : Session Op → Bool
  needs_writable_tx s = any_mutating s.queue
