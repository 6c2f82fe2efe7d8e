-- ===== src/Dispatch/Retry.antt =====
-- A batch that loses write conflicts commits in a later attempt.
use invar.Prelude.{
  ℕ, zero, suc, ◌+◌, ◌≤◌, ◌<◌, ◌≡◌, ◌∙◌, refl, sym, ap, subst, Bool, true, false, not, Option, some,
  List, [], ◌∷◌, ◌++◌, length, length-append, ◌&&◌, if◌then◌else◌, Result, ok, err, arith, leb,
}
use invar.Kv.{Tx, KvError, conflict, DbError}
use invar.Resp.Value.{RespValue}
use invar.Watch.{may_exec}
use invar.Multi.{Session, needs_writable_tx}
use invar.Dispatch.{
  Run, finished, TxIsolation, snapshot, Attempt, AttemptLog, ConflictRetries, Dispatched, give_up,
  watch_failed, commit_done, after_conflict, logged, isolation_of, run_ops, after_commit,
  finish_attempt, with_tx, or_retry, next_retry, attempt_loop, new_retries, dispatch_pending_ops,
  conflict_error, store_error, watch_set,
}
use invar.Dispatch.Settle.{dispatch_starts}

module _ (t : Tx) {Op R W : Type 0} (run : Op → t.State → Result DbError R × t.State)
    (reply : Op → Result DbError R → RespValue) (env : ℕ → Bool → TxIsolation → Attempt t.State W)
    (batch : Bool) (s : Session Op) (epoch : ℕ) where
  abbrev attempt_at : ℕ → Attempt t.State W
  attempt_at n = env n (needs_writable_tx s) (isolation_of s)

  -- The attempt runs the whole queue, and the store answers its commit with `c`.
  pub record Reaches (n : ℕ) (c : Result KvError W) : Type 0 where
    pub tx : t.State
    pub end : t.State
    pub begun : (attempt_at n).begin ≡ ok tx
    pub unwatched :
        (batch && not (may_exec t (attempt_at n).registry tx (watch_set t run reply env s epoch)))
        ≡ false
    pub ran : (run_ops t run reply env batch s.queue [] [] tx).ending ≡ finished end
    pub answered : (attempt_at n).commit end ≡ c

  else_of : {A : Type 0} (b : Bool) (x y : A) → b ≡ false → (if b then x else y) ≡ y
  else_of b x y e = rw e refl

  -- What the loop does after an attempt that reaches its commit.
  abbrev next_log : List (AttemptLog Op R) → t.State → List (AttemptLog Op R)
  next_log log tx =
      log ++ logged false s.queue (run_ops t run reply env batch s.queue [] [] tx) ∷ []

  abbrev again : ℕ → ConflictRetries → List (AttemptLog Op R) → t.State → Option (Dispatched Op R W)
  again rounds retries log tx =
      or_retry t run reply env (next_retry retries)
        (give_up (conflict_error ∷ []) s (next_log log tx))
        (λ left. attempt_loop t run reply env rounds batch s epoch left (next_log log tx))

  reached :
      (rounds : ℕ) (retries : ConflictRetries) (log : List (AttemptLog Op R)) (c : Result KvError W)
      (h : Reaches (length log) c)
      → attempt_loop t run reply env (suc rounds) batch s epoch retries log
        ≡ after_commit t run reply env batch s
            (run_ops t run reply env batch s.queue [] [] h.tx)
            log
            (again rounds retries log h.tx)
            c
  unfolding attempt_loop with_tx finish_attempt
  reached rounds retries log c h =
      let attempt : Attempt t.State W = attempt_at (length log) in
      let ran : t.State → Run Op R t.State = λ tx. run_ops t run reply env batch s.queue [] [] tx in
      let go : t.State → Option (Dispatched Op R W) = λ tx.
        if batch && not (may_exec t attempt.registry tx (watch_set t run reply env s epoch))
        then some (watch_failed s log)
        else finish_attempt t run reply env batch s attempt.commit (ran tx) log
            (again rounds retries log tx) (ran tx).ending in
      ap (λ b. with_tx t run reply env b (λ e. give_up (store_error e ∷ []) s log) go) h.begun
      ∙ else_of
          (batch && not (may_exec t attempt.registry h.tx (watch_set t run reply env s epoch)))
          (some (watch_failed s log))
          (finish_attempt t run reply env batch s attempt.commit (ran h.tx) log
            (again rounds retries log h.tx) (ran h.tx).ending)
          h.unwatched
      ∙ ap
          (λ e.
            finish_attempt t run reply env batch s attempt.commit (ran h.tx) log
              (again rounds retries log h.tx) e)
          h.ran
      ∙ ap
          (λ a.
            after_commit t run reply env batch s (ran h.tx) log (again rounds retries log h.tx) a)
          h.answered

  retried :
      (rounds : ℕ) (retries : ConflictRetries) (log : List (AttemptLog Op R))
      (h : Reaches (length log) (err conflict))
      → isolation_of s ≡ snapshot
      → retries.attempts < retries.max
      → attempt_loop t run reply env (suc rounds) batch s epoch retries log
        ≡ attempt_loop t run reply env rounds batch s epoch
            (record retries { attempts = retries.attempts + 1 })
            (next_log log h.tx)
  retried rounds retries log h kind budget =
      reached rounds retries log (err conflict) h ∙ conflicted_to ∙ retry_left
    where
      conflicted_to :
          after_commit t run reply env batch s
            (run_ops t run reply env batch s.queue [] [] h.tx)
            log
            (again rounds retries log h.tx)
            (err conflict)
          ≡ again rounds retries log h.tx
      conflicted_to =
          unfold after_commit in
          ap (λ i. after_conflict i s (next_log log h.tx) (again rounds retries log h.tx)) kind
          ∙ (unfold after_conflict in refl)

      retry_left :
          again rounds retries log h.tx
          ≡ attempt_loop t run reply env rounds batch s epoch
              (record retries { attempts = retries.attempts + 1 })
              (next_log log h.tx)
      retry_left =
          let more : leb retries.max retries.attempts ≡ false = ground arith in
          unfold or_retry next_retry in rw more refl

  -- The result of a dispatch that commits.
  pub record CommitsWith (w : W) (o : Option (Dispatched Op R W)) : Type 0 where
    pub result : Dispatched Op R W
    pub found : o ≡ some result
    pub written : result.latest_write ≡ some w

  loop_commits :
      (k rounds : ℕ) (w : W) (retries : ConflictRetries) (log : List (AttemptLog Op R))
      → isolation_of s ≡ snapshot
      → ((j : ℕ) → j < k → Reaches (length log + j) (err conflict))
      → Reaches (length log + k) (ok w)
      → k < rounds
      → k + retries.attempts ≤ retries.max
      → CommitsWith w (attempt_loop t run reply env rounds batch s epoch retries log)
  loop_commits k zero w retries log kind lost won enough budget = absurd (omega arith)
  loop_commits zero (suc rounds) w retries log kind lost won enough budget =
      let here : length log + 0 ≡ length log = omega arith in
      let h : Reaches (length log) (ok w) = subst (λ n. Reaches n (ok w)) here won in
      record {
        result =
            commit_done batch reply s (run_ops t run reply env batch s.queue [] [] h.tx).outcomes w
              (log ++ logged true s.queue (run_ops t run reply env batch s.queue [] [] h.tx) ∷ []);
        found = reached rounds retries log (ok w) h ∙ (unfold after_commit in refl);
        written = unfold commit_done in refl;
      }
  loop_commits (suc k) (suc rounds) w retries log kind lost won enough budget =
      let here : length log + 0 ≡ length log = omega arith in
      let h : Reaches (length log) (err conflict) =
        subst (λ n. Reaches n (err conflict)) here (lost 0 (omega arith)) in
      let longer : length (next_log log h.tx) ≡ length log + 1 = omega (
        arith,
        length-append log
            (logged false s.queue (run_ops t run reply env batch s.queue [] [] h.tx) ∷ []),
      ) in
      let shift : (j : ℕ) → length log + suc j ≡ length (next_log log h.tx) + j =
        λ j. omega (arith, longer) in
      subst (CommitsWith w) (sym (retried rounds retries log h kind (omega arith))) (
        loop_commits k rounds w (record retries { attempts = retries.attempts + 1 })
          (next_log log h.tx) kind
          (λ j small. subst (λ n. Reaches n (err conflict)) (shift j) (lost (suc j) (omega arith)))
          (subst (λ n. Reaches n (ok w)) (shift k) won) (omega arith) (omega arith))

  -- A batch that loses its commit to other writers is run again: outside a MULTI block, with
  -- operations in the queue and none that asks for a serializable transaction, a dispatch whose first
  -- `k` attempts run the whole queue and lose their commits to a conflict, and whose next attempt runs it
  -- and is committed, gives a result with the handle of that commit, where `k` is at most the retry
  -- count.
  pub dispatch_commits_later :
      (k conflict_retry_count : ℕ) (w : W)
      → s.in_multi ≡ false
      → (batch && s.dirty_exec) ≡ false
      → 0 < length s.queue
      → isolation_of s ≡ snapshot
      → k ≤ conflict_retry_count
      → ((j : ℕ) → j < k → Reaches j (err conflict))
      → Reaches k (ok w)
      → CommitsWith w (dispatch_pending_ops t run reply env batch s epoch conflict_retry_count)
  dispatch_commits_later k count w outside clean busy kind few lost won =
      subst (CommitsWith w)
        (sym (dispatch_starts t run reply env batch s epoch count outside clean busy))
        (loop_commits k (suc count) w (new_retries count) [] kind
          (λ j small. subst (λ n. Reaches n (err conflict)) {x = j} (omega arith) (lost j small))
          (subst (λ n. Reaches n (ok w)) {x = k} (omega arith) won) (omega arith) (omega arith))
