-- ===== src/Dispatch/Settle.antt =====
-- How a dispatch ends, and that it ends.
use invar.Prelude.{
  ℕ, zero, suc, ◌+◌, ◌≤◌, ◌<◌, ◌≡◌, ◌∙◌, refl, sym, subst, ◌⊎◌, inl, inr, Bool, true, false, not,
  Option, none, some, List, [], ◌∷◌, ◌++◌, All, length, length-append, ◌&&◌, if◌then◌else◌, Result,
  ok, err, arith, Bytes, ◌%◌, ◌^◌, leb, Bool-cases,
}
use invar.Kv.{Tx, KvError, key_not_found, conflict, db_closed, undefined, DbError}
use invar.Resp.Value.{RespValue, array, nil, null_array}
use invar.Registry.{WatchRegistry, get_version}
use invar.Watch.{may_exec}
use invar.Multi.{QueuedOp, Session, needs_writable_tx}
use invar.Dispatch.{
  Run, Ending, finished, conflicted, failed, TxIsolation, snapshot, serializable_snapshot, Attempt,
  AttemptLog, ConflictRetries, Dispatched, reply_all, to_values, give_up, watch_failed, commit_done,
  after_conflict, logged, isolation_of, run_ops, after_commit, finish_attempt, with_tx, or_retry,
  next_retry, attempt_loop, new_retries, dispatch_pending_ops, conflict_error, aborted_error,
  store_error, early, watch_set,
}
use invar.Dispatch.Bumps.{writes_of, bumped_by}
use invar.Dispatch.Attempts.{Faithful, run_ops-Faithful, length-reply_all}

abbrev pub IsReplied : {Op : Type 0} → Bool → List RespValue → Session Op → Type 0
IsReplied true replies s = length replies ≡ 1
IsReplied false replies s = length replies ≡ length s.queue

module _ {Op R : Type 0} where
  -- An attempt that did not commit, and returned every claim that its operations made.
  abbrev pub IsReturned : AttemptLog Op R → Type 0
  IsReturned a = (a.committed ≡ false) × (a.released ≡ a.claims)

  -- The last attempt committed and kept its claims; every operation has a reply, or the block has one,
  -- and the version of a key is raised once for each time that an operation of the queue writes it.
  pub record Commits {W : Type 0} (batch : Bool) (s : Session Op) (d : Dispatched Op R W)
      : Type 0 where
    pub earlier : List (AttemptLog Op R)
    pub last : AttemptLog Op R
    pub all_attempts : d.log ≡ earlier ++ last ∷ []
    pub returned : All IsReturned earlier
    pub committed : last.committed ≡ true
    pub kept : last.released ≡ []
    pub replied : IsReplied batch d.replies s
    pub versions :
        (registry : WatchRegistry) (key : Bytes)
        → get_version (d.bump registry) key % 2 ^ 64
          ≡ (get_version registry key + writes_of key s.queue) % 2 ^ 64

  -- No attempt committed: every claim is returned, no version is raised, and there is one reply.
  pub record Fails {W : Type 0} (d : Dispatched Op R W) : Type 0 where
    pub returned : All IsReturned d.log
    pub replied : length d.replies ≡ 1
    pub no_versions : (registry : WatchRegistry) → d.bump registry ≡ registry
    pub no_write : d.latest_write ≡ none

  pub record Settled {W : Type 0} (batch : Bool) (s : Session Op) (d : Dispatched Op R W)
      : Type 0 where
    pub outcome : Commits batch s d ⊎ Fails d
    pub emptied : d.session.queue ≡ []

  -- A result within a number of attempts.
  pub record Ends {W : Type 0} (batch : Bool) (s : Session Op) (limit : ℕ)
      (o : Option (Dispatched Op R W)) : Type 0 where
    pub result : Dispatched Op R W
    pub found : o ≡ some result
    pub settled : Settled batch s result
    pub bounded : length result.log ≤ limit

  All-snoc :
      (log : List (AttemptLog Op R)) (a : AttemptLog Op R)
      → All IsReturned log
      → IsReturned a
      → All IsReturned (log ++ a ∷ [])
  All-snoc [] a h r = (r, tt)
  All-snoc (x ∷ log) a (here, h) r = (here, All-snoc log a h r)

module _ {Op R W : Type 0} (batch : Bool) (s : Session Op) where
  Ends-give_up :
      (limit : ℕ) (v : RespValue) (s' : Session Op) (log : List (AttemptLog Op R))
      → All IsReturned log
      → length log ≤ limit
      → Ends batch s limit (some (give_up {W = W} (v ∷ []) s' log))
  Ends-give_up limit v s' log h small = record {
    result = give_up (v ∷ []) s' log;
    found = refl;
    settled = record {
      outcome =
          inr record {
            returned = h;
            replied = refl;
            no_versions = λ registry. refl;
            no_write = refl;
          };
      emptied = refl;
    };
    bounded = small;
  }

  Ends-after_conflict :
      (limit : ℕ) (i : TxIsolation) (log : List (AttemptLog Op R))
      (again : Option (Dispatched Op R W))
      → All IsReturned log
      → length log ≤ limit
      → Ends batch s limit again
      → Ends batch s limit (after_conflict i s log again)
  unfolding after_conflict
  Ends-after_conflict limit snapshot log again h small next = next
  Ends-after_conflict limit serializable_snapshot log again h small next = record {
    result = watch_failed s log;
    found = refl;
    settled = record {
      outcome =
          inr record {
            returned = h;
            replied = refl;
            no_versions = λ registry. refl;
            no_write = refl;
          };
      emptied = refl;
    };
    bounded = small;
  }

  Ends-if :
      (limit : ℕ) (b : Bool) (x y : Option (Dispatched Op R W))
      → Ends batch s limit x
      → Ends batch s limit y
      → Ends batch s limit (if b then x else y)
  Ends-if limit true x y a b = a
  Ends-if limit false x y a b = b

logged-IsReturned :
    {Op R S : Type 0} (queue : List (QueuedOp Op)) (r : Run Op R S)
    → Faithful queue r
    → IsReturned (logged false queue r)
unfolding logged
logged-IsReturned queue r f = (refl, f.same_claims)

replies_all :
    {Op R : Type 0} (batch : Bool) (reply : Op → Result DbError R → RespValue) (s : Session Op)
    (outcomes : List (Result DbError R))
    → length outcomes ≡ length s.queue
    → IsReplied batch
        (if batch
          then array (to_values (reply_all reply s.queue outcomes)) ∷ []
          else reply_all reply s.queue outcomes)
        s
replies_all true reply s outcomes even = refl
replies_all false reply s outcomes even =
    omega (arith, even, length-reply_all reply s.queue outcomes (omega arith))

module _ (t : Tx) {Op R W : Type 0} (run : Op → t.State → Result DbError R × t.State)
    (reply : Op → Result DbError R → RespValue) (env : ℕ → Bool → TxIsolation → Attempt t.State W)
    (batch : Bool) (s : Session Op) (epoch : ℕ) where
  Ends-after_commit :
      (limit : ℕ) (r : Run Op R t.State) (log : List (AttemptLog Op R))
      (again : Option (Dispatched Op R W)) (c : Result KvError W)
      → Faithful s.queue r
      → length r.outcomes ≡ length s.queue
      → All IsReturned log
      → suc (length log) ≤ limit
      → Ends batch s limit again
      → Ends batch s limit (after_commit t run reply env batch s r log again c)
  unfolding after_commit
  Ends-after_commit limit r log again c f even h small next = cases c
    where
      returned : All IsReturned (log ++ logged false s.queue r ∷ [])
      returned = All-snoc log (logged false s.queue r) h (logged-IsReturned s.queue r f)

      longer : (a : AttemptLog Op R) → length (log ++ a ∷ []) ≤ limit
      longer a = omega (arith, small, length-append log (a ∷ []))

      cases :
          (c : Result KvError W)
          → Ends batch s limit (after_commit t run reply env batch s r log again c)
      cases (ok handle) = record {
        result = commit_done batch reply s r.outcomes handle (log ++ logged true s.queue r ∷ []);
        found = refl;
        settled = record {
          outcome = inl record {
            earlier = log;
            last = logged true s.queue r;
            all_attempts = unfold commit_done in refl;
            returned = h;
            committed = unfold logged in refl;
            kept = unfold logged in refl;
            replied = unfold commit_done in replies_all batch reply s r.outcomes even;
            versions = λ registry key. unfold commit_done in (bumped_by registry s.queue key);
          };
          emptied = unfold commit_done in refl;
        };
        bounded = unfold commit_done in longer (logged true s.queue r);
      }
      cases (err key_not_found) =
          Ends-give_up batch s limit (store_error key_not_found) s
            (log ++ logged false s.queue r ∷ []) returned (longer (logged false s.queue r))
      cases (err conflict) =
          Ends-after_conflict batch s limit (isolation_of s) (log ++ logged false s.queue r ∷ [])
            again returned (longer (logged false s.queue r)) next
      cases (err db_closed) =
          Ends-give_up batch s limit (store_error db_closed) s (log ++ logged false s.queue r ∷ [])
            returned (longer (logged false s.queue r))
      cases (err undefined) =
          Ends-give_up batch s limit (store_error undefined) s (log ++ logged false s.queue r ∷ [])
            returned (longer (logged false s.queue r))

  Ends-finish_attempt :
      (limit : ℕ) (commit : t.State → Result KvError W) (r : Run Op R t.State)
      (log : List (AttemptLog Op R)) (again : Option (Dispatched Op R W)) (e : Ending t.State)
      → r.ending ≡ e
      → Faithful s.queue r
      → All IsReturned log
      → suc (length log) ≤ limit
      → Ends batch s limit again
      → Ends batch s limit (finish_attempt t run reply env batch s commit r log again e)
  unfolding finish_attempt
  Ends-finish_attempt limit commit r log again (finished s') same f h small next =
      Ends-after_commit limit r log again (commit s') f (f.all_ran s' same) h small next
  Ends-finish_attempt limit commit r log again conflicted same f h small next =
      Ends-after_conflict batch s limit (isolation_of s) (log ++ logged false s.queue r ∷ []) again
        (All-snoc log (logged false s.queue r) h (logged-IsReturned s.queue r f))
        (omega (arith, length-append log (logged false s.queue r ∷ []))) next
  Ends-finish_attempt limit commit r log again (failed answer) same f h small next =
      Ends-give_up batch s limit answer s (log ++ logged false s.queue r ∷ [])
        (All-snoc log (logged false s.queue r) h (logged-IsReturned s.queue r f))
        (omega (arith, length-append log (logged false s.queue r ∷ [])))

  Ends-with_tx :
      (limit : ℕ) (r : Result KvError t.State) (fail : KvError → Dispatched Op R W)
      (next : t.State → Option (Dispatched Op R W))
      → ((e : KvError) → Ends batch s limit (some (fail e)))
      → ((tx : t.State) → Ends batch s limit (next tx))
      → Ends batch s limit (with_tx t run reply env r fail next)
  unfolding with_tx
  Ends-with_tx limit (err e) fail next a b = a e
  Ends-with_tx limit (ok tx) fail next a b = b tx

  Ends-or_retry :
      (limit : ℕ) (retries : ConflictRetries) (fail : Dispatched Op R W)
      (next : ConflictRetries → Option (Dispatched Op R W))
      → Ends batch s limit (some fail)
      → ((left : ConflictRetries)
          → left.attempts ≡ suc retries.attempts
          → left.max ≡ retries.max
          → left.attempts ≤ left.max
          → Ends batch s limit (next left))
      → Ends batch s limit (or_retry t run reply env (next_retry retries) fail next)
  unfolding or_retry next_retry
  Ends-or_retry limit retries fail next a b = elim (Bool-cases (leb retries.max retries.attempts)) [
    | inl e ↦ rw e a
    | inr e ↦
        rw e
          (b (record retries { attempts = retries.attempts + 1 }) (omega arith) refl (ground arith))
  ]

  -- As many rounds are enough as retries are left, and one.
  attempt_loop-Ends :
      (rounds limit : ℕ) (retries : ConflictRetries) (log : List (AttemptLog Op R))
      → retries.max + 1 ≤ rounds + retries.attempts
      → retries.attempts ≤ retries.max
      → All IsReturned log
      → length log + rounds ≤ limit
      → Ends batch s limit (attempt_loop t run reply env rounds batch s epoch retries log)
  unfolding attempt_loop
  attempt_loop-Ends zero limit retries log enough budget h small = absurd (omega arith)
  attempt_loop-Ends (suc rounds) limit retries log enough budget h small =
      let attempt : Attempt t.State W = env (length log) (needs_writable_tx s) (isolation_of s) in
      let fail : KvError → Dispatched Op R W = λ e. give_up (store_error e ∷ []) s log in
      let ran : t.State → Run Op R t.State = λ tx. run_ops t run reply env batch s.queue [] [] tx in
      let longer : t.State → List (AttemptLog Op R) =
        λ tx. log ++ logged false s.queue (ran tx) ∷ [] in
      let again : t.State → Option (Dispatched Op R W) = λ tx.
        or_retry t run reply env (next_retry retries) (give_up (conflict_error ∷ []) s (longer tx))
          (λ left. attempt_loop t run reply env rounds batch s epoch left (longer tx)) in
      Ends-with_tx limit attempt.begin fail
        (λ tx.
          if batch && not (may_exec t attempt.registry tx (watch_set t run reply env s epoch))
          then some (watch_failed s log)
          else finish_attempt t run reply env batch s attempt.commit (ran tx) log (again tx)
              (ran tx).ending)
        (λ e. Ends-give_up batch s limit (store_error e) s log h (omega arith))
        (λ tx.
          let f : Faithful s.queue (ran tx) = run_ops-Faithful t run reply env batch s.queue tx in
          let returned : All IsReturned (longer tx) =
            All-snoc log (logged false s.queue (ran tx)) h (logged-IsReturned s.queue (ran tx) f) in
          let one_more : length (longer tx) ≡ length log + 1 =
            omega (arith, length-append log (logged false s.queue (ran tx) ∷ [])) in
          Ends-if batch s limit
            (batch && not (may_exec t attempt.registry tx (watch_set t run reply env s epoch)))
            (some (watch_failed s log))
            (finish_attempt t run reply env batch s attempt.commit (ran tx) log (again tx)
              (ran tx).ending)
            (Ends-give_up batch s limit null_array (record s { watched_keys = [] }) log h
              (omega arith))
            (Ends-finish_attempt limit attempt.commit (ran tx) log (again tx) (ran tx).ending refl f
              h (omega arith)
              (Ends-or_retry limit retries (give_up (conflict_error ∷ []) s (longer tx))
                (λ left. attempt_loop t run reply env rounds batch s epoch left (longer tx))
                (Ends-give_up batch s limit conflict_error s (longer tx) returned
                  (omega (arith, one_more)))
                (λ left one same within.
                  attempt_loop-Ends rounds limit left (longer tx) (omega (arith, one, same)) within
                    returned (omega (arith, one_more))))))

  queued : ℕ → List (QueuedOp Op) → Option (Dispatched Op R W)
  queued count queue = elim queue [
    | [] ↦ some (early t run reply env (if batch then array nil ∷ [] else []) s)
    | op ∷ rest ↦ attempt_loop t run reply env (suc count) batch s epoch (new_retries count) []
  ]

  queued_busy :
      (count : ℕ) (queue : List (QueuedOp Op))
      → 0 < length queue
      → queued count queue
        ≡ attempt_loop t run reply env (suc count) batch s epoch (new_retries count) []
  unfolding queued
  queued_busy count [] busy = absurd (omega arith)
  queued_busy count (op ∷ rest) busy = refl

  else_same : {A : Type 0} (b : Bool) (x y : A) → b ≡ false → (if b then x else y) ≡ y
  else_same b x y e = rw e refl

  pub dispatch_starts :
      (count : ℕ)
      → s.in_multi ≡ false
      → (batch && s.dirty_exec) ≡ false
      → 0 < length s.queue
      → dispatch_pending_ops t run reply env batch s epoch count
        ≡ attempt_loop t run reply env (suc count) batch s epoch (new_retries count) []
  unfolding dispatch_pending_ops queued
  dispatch_starts count outside clean busy =
      let aborted : Option (Dispatched Op R W) = some (
        early t run reply env (aborted_error ∷ [])
          (record s { queue = []; dirty_exec = false; watched_keys = [] })) in
      else_same s.in_multi (some (early t run reply env [] s))
        (if batch && s.dirty_exec then aborted else queued count s.queue) outside
      ∙ else_same (batch && s.dirty_exec) aborted (queued count s.queue) clean
      ∙ queued_busy count s.queue busy

  -- A dispatch ends: outside a MULTI block, with operations in the queue, and not an EXEC after a command
  -- failed to queue, it gives a result within one attempt more than the retries. Either the last attempt
  -- committed and kept its claims, the version of each key is raised in the registry, modulo 2 ^ 64, by
  -- how often the operations that change the store name it, and every operation has a reply, or the block
  -- one; or no attempt committed, the registry stays and there is one reply. The attempts that did not
  -- commit returned all the claims that their operations made, and the queue is empty.
  pub dispatch_pending_ops-Ends :
      (conflict_retry_count : ℕ)
      → s.in_multi ≡ false
      → (batch && s.dirty_exec) ≡ false
      → 0 < length s.queue
      → Ends batch s
          (suc conflict_retry_count)
          (dispatch_pending_ops t run reply env batch s epoch conflict_retry_count)
  dispatch_pending_ops-Ends count outside clean busy =
      subst (Ends batch s (suc count)) (sym (dispatch_starts count outside clean busy)) (
        attempt_loop-Ends (suc count) (suc count) (new_retries count) [] (omega arith) (omega arith)
          tt (omega arith))
