-- ===== src/Dispatch/Exec.antt =====
-- EXEC after WATCH and a commit of another session.
use invar.Prelude.{
  ℕ, suc, ◌^◌, ◌<◌, ◌≡◌, ◌∙◌, refl, ap, Bool, true, false, not, Option, some, List, [], ◌∷◌, length,
  if◌then◌else◌, Result, ok, Bytes,
}
use invar.Kv.{Tx, KvError, DbError}
use invar.Resp.Value.{RespValue}
use invar.Registry.{WatchRegistry, get_version, bump_versions}
use invar.Registry.Queues.{has_key}
use invar.Registry.Delivery.{times}
use invar.Watch.{Watched, WatchSet, snapshot_and_watch, may_exec}
use invar.Watch.Detect.{may_exec-bump_versions}
use invar.Multi.{Session, needs_writable_tx}
use invar.Dispatch.{
  TxIsolation, Attempt, AttemptLog, Dispatched, give_up, watch_failed, isolation_of, logged,
  run_ops, finish_attempt, with_tx, or_retry, next_retry, new_retries, attempt_loop,
  dispatch_pending_ops, conflict_error, store_error, watch_set,
}
use invar.Dispatch.Settle.{dispatch_starts}

module _ (t : Tx) {Op R W : Type 0} (run : Op → t.State → Result DbError R × t.State)
    (reply : Op → Result DbError R → RespValue) (env : ℕ → Bool → TxIsolation → Attempt t.State W)
    (s : Session Op) where
  abbrev first : Attempt t.State W
  first = env 0 (needs_writable_tx s) (isolation_of s)

  then_of : {A : Type 0} (b : Bool) (x y : A) → b ≡ false → (if not b then x else y) ≡ x
  then_of b x y e = rw e refl

  refused :
      (rounds epoch max : ℕ) (tx : t.State)
      → first.begin ≡ ok tx
      → may_exec t first.registry tx (watch_set t run reply env s epoch) ≡ false
      → attempt_loop t run reply env (suc rounds) true s epoch (new_retries max) []
        ≡ some (watch_failed s [])
  unfolding attempt_loop with_tx
  refused rounds epoch max tx begun changed =
      let next : t.State → List (AttemptLog Op R) =
        λ tx. logged false s.queue (run_ops t run reply env true s.queue [] [] tx) ∷ [] in
      let go : t.State → Option (Dispatched Op R W) = λ tx.
        finish_attempt t run reply env true s first.commit
          (run_ops t run reply env true s.queue [] [] tx) []
          (or_retry t run reply env (next_retry (new_retries max))
            (give_up (conflict_error ∷ []) s (next tx))
            (λ left. attempt_loop t run reply env rounds true s epoch left (next tx)))
          (run_ops t run reply env true s.queue [] [] tx).ending in
      ap
        (λ b.
          with_tx t run reply env b (λ e. give_up (store_error e ∷ []) s [])
            (λ tx.
              if not (may_exec t first.registry tx (watch_set t run reply env s epoch))
              then some (watch_failed s [])
              else go tx))
        begun
      ∙ then_of (may_exec t first.registry tx (watch_set t run reply env s epoch))
          (some (watch_failed s [])) (go tx) changed

  -- EXEC answers the null array, runs none of the queue, empties the queue and unwatches every key,
  -- where the session watched a key that a commit has written since. The transaction begins, the block is
  -- over, no command failed while queuing, and the queue has operations; the registry that
  -- EXEC sees is that of the WATCH with the commit's keys raised, the commit wrote the key less than
  -- 2 ^ 64 times, and the version was below 2 ^ 64.
  pub exec_after_write :
      (r : WatchRegistry) (before : Result KvError t.State) (ws : WatchSet)
      (keys written : List Bytes) (k : Bytes) (tx : t.State) (conflict_retry_count : ℕ)
      → has_key k keys ≡ true
      → has_key k written ≡ true
      → times k written < 2 ^ 64
      → get_version r k < 2 ^ 64
      → s.watched_keys ≡ (snapshot_and_watch t r before ws keys).watched_keys
      → first.begin ≡ ok tx
      → first.registry ≡ bump_versions r written
      → s.in_multi ≡ false
      → s.dirty_exec ≡ false
      → 0 < length s.queue
      → dispatch_pending_ops t run reply env true s
          (snapshot_and_watch t r before ws keys).watch_flush_epoch
          conflict_retry_count
        ≡ some (watch_failed s [])
  exec_after_write r before ws keys written k tx count in_keys wrote few small watched begun seen
        outside clean busy =
      let epoch : ℕ = (snapshot_and_watch t r before ws keys).watch_flush_epoch in
      let changed : may_exec t first.registry tx (watch_set t run reply env s epoch) ≡ false =
        ap
          (λ (l : List Watched).
            may_exec t first.registry tx (record { watched_keys = l; watch_flush_epoch = epoch }))
          watched
        ∙ ap (λ (g : WatchRegistry). may_exec t g tx (snapshot_and_watch t r before ws keys)) seen
        ∙ may_exec-bump_versions t r before tx ws keys written k in_keys wrote few small in
      dispatch_starts t run reply env true s epoch count outside clean busy
      ∙ refused count epoch count tx begun changed
