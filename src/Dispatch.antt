-- ===== src/Dispatch.antt =====
-- src/redis/common/session.rs: `dispatch_pending_ops`, which runs the queue of a session in a
-- transaction and tries again where it loses a write conflict. The store and the other sessions are an
-- environment: what `begin` and `commit` answer in each attempt, and the registry as that attempt
-- sees it. A log keeps, for each attempt, the results of the operations that succeeded in it (they
-- hold the claims) and those whose claims were returned. The pauses between attempts are left out.
pub mod Attempts
pub mod Bumps
pub mod Settle
pub mod Retry
pub mod Exec
use invar.Prelude.{
  ℕ, zero, suc, ◌+◌, Bool, true, false, not, Option, none, some, List, [], ◌∷◌, ◌++◌, length, leb,
  ◌&&◌, if◌then◌else◌, Result, ok, err, Bytes,
}
use invar.Kv.{Tx, KvError, key_not_found, conflict, db_closed, undefined, DbError, kv}
use invar.Resp.Value.{RespValue, RespValues, nil, cons, error, array, null_array}
use invar.Registry.{WatchRegistry, bump_versions}
use invar.Watch.{WatchSet, may_exec}
use invar.Multi.{QueuedOp, Session, needs_ssi, needs_writable_tx}

pub data TxIsolation : Type 0 where
  snapshot serializable_snapshot : TxIsolation

-- The retry budget of one batch.
pub record ConflictRetries : Type 0 where
  pub attempts : ℕ
  pub max : ℕ

abbrev pub new_retries : ℕ → ConflictRetries
new_retries max = record { attempts = 0; max = max }

-- `None` once the budget is used up.
unfoldable pub next_retry : ConflictRetries → Option ConflictRetries
next_retry r = if leb r.max r.attempts then none else some (record r { attempts = r.attempts + 1 })

abbrev pub conflict_error : RespValue
conflict_error = error (
    b'E' ∷ b'R' ∷ b'R' ∷ b' ' ∷ b'C' ∷ b'o' ∷ b'u' ∷ b'l' ∷ b'd' ∷ b'n' ∷ 39 ∷ b't' ∷ b' ' ∷ b'c'
    ∷ b'o' ∷ b'm' ∷ b'm' ∷ b'i' ∷ b't' ∷ b' ' ∷ b't' ∷ b'r' ∷ b'a' ∷ b'n' ∷ b's' ∷ b'a' ∷ b'c'
    ∷ b't' ∷ b'i' ∷ b'o' ∷ b'n' ∷ [])

abbrev pub aborted_error : RespValue
aborted_error = error (
    b'E' ∷ b'X' ∷ b'E' ∷ b'C' ∷ b'A' ∷ b'B' ∷ b'O' ∷ b'R' ∷ b'T' ∷ b' ' ∷ b'T' ∷ b'r' ∷ b'a' ∷ b'n'
    ∷ b's' ∷ b'a' ∷ b'c' ∷ b't' ∷ b'i' ∷ b'o' ∷ b'n' ∷ b' ' ∷ b'd' ∷ b'i' ∷ b's' ∷ b'c' ∷ b'a'
    ∷ b'r' ∷ b'd' ∷ b'e' ∷ b'd' ∷ b' ' ∷ b'b' ∷ b'e' ∷ b'c' ∷ b'a' ∷ b'u' ∷ b's' ∷ b'e' ∷ b' '
    ∷ b'o' ∷ b'f' ∷ b' ' ∷ b'p' ∷ b'r' ∷ b'e' ∷ b'v' ∷ b'i' ∷ b'o' ∷ b'u' ∷ b's' ∷ b' ' ∷ b'e'
    ∷ b'r' ∷ b'r' ∷ b'o' ∷ b'r' ∷ b's' ∷ b'.' ∷ [])

-- The error of the store with `ERR` before it.
abbrev pub store_error : KvError → RespValue
store_error key_not_found = error (
    b'E' ∷ b'R' ∷ b'R' ∷ b' ' ∷ b'K' ∷ b'e' ∷ b'y' ∷ b' ' ∷ b'n' ∷ b'o' ∷ b't' ∷ b' ' ∷ b'f' ∷ b'o'
    ∷ b'u' ∷ b'n' ∷ b'd' ∷ [])
store_error conflict =
    error (b'E' ∷ b'R' ∷ b'R' ∷ b' ' ∷ b'C' ∷ b'o' ∷ b'n' ∷ b'f' ∷ b'l' ∷ b'i' ∷ b'c' ∷ b't' ∷ [])
store_error db_closed =
    error (b'E' ∷ b'R' ∷ b'R' ∷ b' ' ∷ b'C' ∷ b'l' ∷ b'o' ∷ b's' ∷ b'e' ∷ b'd' ∷ [])
store_error undefined =
    error (
      b'E' ∷ b'R' ∷ b'R' ∷ b' ' ∷ b'U' ∷ b'n' ∷ b'd' ∷ b'e' ∷ b'f' ∷ b'i' ∷ b'n' ∷ b'e' ∷ b'd' ∷ [])

abbrev pub is_retryable_conflict : {R : Type 0} → Result DbError R → Bool
is_retryable_conflict (err (kv conflict)) = true
is_retryable_conflict outcome = false

-- What the environment answers in one attempt.
pub record Attempt (S W : Type 0) : Type 0 where
  pub begin : Result KvError S
  pub registry : WatchRegistry
  pub commit : S → Result KvError W

-- What one run of the queue gives: the outcomes so far, the successes among them with their
-- operations, and how it ended.
pub data Ending (S : Type 0) : Type 0 where
  finished : S → Ending S
  conflicted : Ending S
  failed : RespValue → Ending S

pub record Run (Op R S : Type 0) : Type 0 where
  pub outcomes : List (Result DbError R)
  pub claims : List (Op × R)
  pub ending : Ending S

pub record AttemptLog (Op R : Type 0) : Type 0 where
  pub claims : List (Op × R)
  pub released : List (Op × R)
  pub committed : Bool

-- `bump` is what the dispatch does to the registry, whatever that holds once the commit is through.
pub record Dispatched (Op R W : Type 0) : Type 0 where
  pub replies : List RespValue
  pub session : Session Op
  pub latest_write : Option W
  pub bump : WatchRegistry → WatchRegistry
  pub log : List (AttemptLog Op R)

abbrev pub is_err : {R : Type 0} → Result DbError R → Bool
is_err (ok r) = false
is_err (err e) = true

-- The operations whose claims `release_claims` returns: the outcomes stand in the order of the queue.
unfoldable pub release_claims :
    {Op R : Type 0} → List (QueuedOp Op) → List (Result DbError R) → List (Op × R)
release_claims queue [] = []
release_claims [] (outcome ∷ outcomes) = []
release_claims (op ∷ queue) (ok r ∷ outcomes) = (op.op, r) ∷ release_claims queue outcomes
release_claims (op ∷ queue) (err e ∷ outcomes) = release_claims queue outcomes

unfoldable pub keys_in : Option (List Bytes) → List Bytes
keys_in none = []
keys_in (some keys) = keys

unfoldable pub changed_keys : {Op : Type 0} → List (QueuedOp Op) → List Bytes
unfolding keys_in
changed_keys [] = []
changed_keys (op ∷ queue) =
    let rest = changed_keys queue in if op.is_mutating then keys_in op.keys ++ rest else rest

abbrev pub to_values : List RespValue → RespValues
to_values [] = nil
to_values (v ∷ vs) = cons v (to_values vs)

abbrev pub success : {Op R : Type 0} → Op → Result DbError R → List (Op × R)
success op (ok r) = (op, r) ∷ []
success op (err e) = []

unfoldable pub reply_all :
    {Op R : Type 0}
    → (Op → Result DbError R → RespValue)
    → List (QueuedOp Op)
    → List (Result DbError R)
    → List RespValue
reply_all reply queue [] = []
reply_all reply [] (outcome ∷ outcomes) = []
reply_all reply (op ∷ queue) (outcome ∷ outcomes) =
    reply op.op outcome ∷ reply_all reply queue outcomes

unfoldable pub isolation_of : {Op : Type 0} → Session Op → TxIsolation
unfolding needs_ssi
isolation_of s = if needs_ssi s then serializable_snapshot else snapshot

module _ {Op R W : Type 0} where
  -- The returns that end without a commit.
  abbrev pub give_up : List RespValue → Session Op → List (AttemptLog Op R) → Dispatched Op R W
  give_up replies s log = record {
    replies = replies;
    session = record s { queue = [] };
    latest_write = none;
    bump = λ registry. registry;
    log = log;
  }

  abbrev pub watch_failed : Session Op → List (AttemptLog Op R) → Dispatched Op R W
  watch_failed s log = give_up (null_array ∷ []) (record s { watched_keys = [] }) log

  unfoldable pub commit_done :
      Bool
      → (Op → Result DbError R → RespValue)
      → Session Op
      → List (Result DbError R)
      → W
      → List (AttemptLog Op R)
      → Dispatched Op R W
  unfolding changed_keys reply_all bump_versions
  commit_done batch reply s outcomes handle log =
      let replies = reply_all reply s.queue outcomes in
      record {
        replies = if batch then array (to_values replies) ∷ [] else replies;
        session = record s { queue = []; watched_keys = if batch then [] else s.watched_keys };
        latest_write = some handle;
        bump = λ registry. bump_versions registry (changed_keys s.queue);
        log = log;
      }

  -- A conflict ends a serializable transaction; any other one spends a retry.
  unfoldable pub after_conflict :
      TxIsolation
      → Session Op
      → List (AttemptLog Op R)
      → Option (Dispatched Op R W)
      → Option (Dispatched Op R W)
  after_conflict serializable_snapshot s log again = some (watch_failed s log)
  after_conflict snapshot s log again = again

-- The log of an attempt: the claims are returned unless it committed.
unfoldable pub logged : {Op R S : Type 0} → Bool → List (QueuedOp Op) → Run Op R S → AttemptLog Op R
unfolding release_claims
logged committed queue r = record {
  claims = r.claims;
  released = if committed then [] else release_claims queue r.outcomes;
  committed = committed;
}

-- An operation runs in a transaction, and its wire half renders the outcome. The environment answers
-- each attempt, by its number, for the kind of the transaction that it begins.
module _ (t : Tx) {Op R W : Type 0} (run : Op → t.State → Result DbError R × t.State)
    (reply : Op → Result DbError R → RespValue)
    (env : ℕ → Bool → TxIsolation → Attempt t.State W) where
  unfoldable pub run_ops :
      Bool
      → List (QueuedOp Op)
      → List (Result DbError R)
      → List (Op × R)
      → t.State
      → Run Op R t.State
  run_ops batch [] outcomes claims s = record {
    outcomes = outcomes;
    claims = claims;
    ending = finished s;
  }
  run_ops batch (op ∷ queue) outcomes claims s =
      let (outcome, s') = run op.op s in
      let rest =
        run_ops batch queue (outcomes ++ outcome ∷ []) (claims ++ success op.op outcome) s' in
      if is_retryable_conflict outcome
      then record { outcomes = outcomes; claims = claims; ending = conflicted }
      else if is_err outcome && not batch
      then record { outcomes = outcomes; claims = claims; ending = failed (reply op.op outcome) }
      else rest

  -- What follows the commit. `again` is the next attempt, or the error where no retry is left.
  unfoldable pub after_commit :
      Bool
      → Session Op
      → Run Op R t.State
      → List (AttemptLog Op R)
      → Option (Dispatched Op R W)
      → Result KvError W
      → Option (Dispatched Op R W)
  unfolding logged after_conflict commit_done isolation_of
  after_commit batch s r log again (ok handle) =
      some (commit_done batch reply s r.outcomes handle (log ++ logged true s.queue r ∷ []))
  after_commit batch s r log again (err conflict) =
      after_conflict (isolation_of s) s (log ++ logged false s.queue r ∷ []) again
  after_commit batch s r log again (err e) =
      some (give_up (store_error e ∷ []) s (log ++ logged false s.queue r ∷ []))

  unfoldable pub finish_attempt :
      Bool
      → Session Op
      → (t.State → Result KvError W)
      → Run Op R t.State
      → List (AttemptLog Op R)
      → Option (Dispatched Op R W)
      → Ending t.State
      → Option (Dispatched Op R W)
  unfolding logged after_conflict after_commit isolation_of
  finish_attempt batch s commit r log again (finished s') =
      after_commit batch s r log again (commit s')
  finish_attempt batch s commit r log again conflicted =
      after_conflict (isolation_of s) s (log ++ logged false s.queue r ∷ []) again
  finish_attempt batch s commit r log again (failed answer) =
      some (give_up (answer ∷ []) s (log ++ logged false s.queue r ∷ []))

  -- The session's WATCH set, with the epoch of the last WATCH.
  abbrev pub watch_set : Session Op → ℕ → WatchSet
  watch_set s epoch = record { watched_keys = s.watched_keys; watch_flush_epoch = epoch }

  unfoldable pub with_tx :
      Result KvError t.State
      → (KvError → Dispatched Op R W)
      → (t.State → Option (Dispatched Op R W))
      → Option (Dispatched Op R W)
  with_tx (err e) ended next = some (ended e)
  with_tx (ok tx) ended next = next tx

  unfoldable pub or_retry :
      Option ConflictRetries
      → Dispatched Op R W
      → (ConflictRetries → Option (Dispatched Op R W))
      → Option (Dispatched Op R W)
  or_retry none ended next = some ended
  or_retry (some left) ended next = next left

  -- `'commit: loop`, for at most the rounds given.
  unfoldable pub attempt_loop :
      ℕ
      → Bool
      → Session Op
      → ℕ
      → ConflictRetries
      → List (AttemptLog Op R)
      → Option (Dispatched Op R W)
  unfolding with_tx or_retry next_retry finish_attempt run_ops may_exec isolation_of
      needs_writable_tx
  attempt_loop zero batch s epoch retries log = none
  attempt_loop (suc rounds) batch s epoch retries log =
      let attempt = env (length log) (needs_writable_tx s) (isolation_of s) in
      with_tx attempt.begin (λ e. give_up (store_error e ∷ []) s log)
        (λ tx.
          let r = run_ops batch s.queue [] [] tx in
          let next = log ++ logged false s.queue r ∷ [] in
          let again =
            or_retry (next_retry retries) (give_up (conflict_error ∷ []) s next)
              (λ left. attempt_loop rounds batch s epoch left next) in
          if batch && not (may_exec t attempt.registry tx (watch_set s epoch))
          then some (watch_failed s log)
          else finish_attempt batch s attempt.commit r log again r.ending)

  -- A result of its own for the returns before the loop.
  abbrev early : List RespValue → Session Op → Dispatched Op R W
  early replies s = record {
    replies = replies;
    session = s;
    latest_write = none;
    bump = λ registry. registry;
    log = [];
  }

  -- The rounds are one more than the retries.
  unfoldable pub dispatch_pending_ops : Bool → Session Op → ℕ → ℕ → Option (Dispatched Op R W)
  unfolding attempt_loop
  dispatch_pending_ops batch s epoch conflict_retry_count =
      if s.in_multi
      then some (early [] s)
      else if batch && s.dirty_exec
      then some (
          early (aborted_error ∷ [])
            (record s { queue = []; dirty_exec = false; watched_keys = [] }))
      else elim s.queue [
        | [] ↦ some (early (if batch then array nil ∷ [] else []) s)
        | op ∷ queue ↦
            attempt_loop (suc conflict_retry_count) batch s epoch (new_retries conflict_retry_count)
              []
      ]
