-- ===== src/Dispatch/Attempts.antt =====
-- One run of the queue: the claims that are returned are those of the operations that succeeded.
use invar.Prelude.{
  ℕ, ◌≤◌, ◌≡◌, ◌∙◌, refl, sym, ap, subst, Bool, true, false, not, List, [], ◌∷◌, ◌++◌, length,
  append_assoc, length-append, ◌&&◌, if◌then◌else◌, Result, ok, err, arith,
}
use invar.Kv.{Tx, DbError}
use invar.Resp.Value.{RespValue}
use invar.Multi.{QueuedOp}
use invar.Dispatch.{
  Run, Ending, finished, conflicted, failed, TxIsolation, Attempt, release_claims, reply_all,
  success, is_retryable_conflict, is_err, run_ops,
}

release_claims-snoc :
    {Op R : Type 0} (done queue : List (QueuedOp Op)) (op : QueuedOp Op)
    (outcomes : List (Result DbError R)) (o : Result DbError R)
    → length done ≡ length outcomes
    → release_claims (done ++ op ∷ queue) (outcomes ++ o ∷ [])
      ≡ release_claims (done ++ op ∷ queue) outcomes ++ success op.op o
unfolding release_claims
release_claims-snoc [] queue op [] (ok r) h = refl
release_claims-snoc [] queue op [] (err e) h = refl
release_claims-snoc [] queue op (x ∷ outcomes) o h = absurd (omega arith)
release_claims-snoc (d ∷ done) queue op [] o h = absurd (omega arith)
release_claims-snoc (d ∷ done) queue op (ok r ∷ outcomes) o h =
    ap (λ t. (d.op, r) ∷ t) (release_claims-snoc done queue op outcomes o (omega arith))
release_claims-snoc (d ∷ done) queue op (err e ∷ outcomes) o h =
    release_claims-snoc done queue op outcomes o (omega arith)

-- The claims are those that `release_claims` finds, and a run that finishes has an outcome for each
-- operation.
pub record Faithful {Op R S : Type 0} (queue : List (QueuedOp Op)) (r : Run Op R S) : Type 0 where
  pub same_claims : release_claims queue r.outcomes ≡ r.claims
  pub all_ran : (s : S) → r.ending ≡ finished s → length r.outcomes ≡ length queue

Faithful-if :
    {Op R S : Type 0} (b : Bool) (queue : List (QueuedOp Op)) (x y : Run Op R S)
    → Faithful queue x
    → Faithful queue y
    → Faithful queue (if b then x else y)
Faithful-if true queue x y a b = a
Faithful-if false queue x y a b = b

module _ (t : Tx) {Op R W : Type 0} (run : Op → t.State → Result DbError R × t.State)
    (reply : Op → Result DbError R → RespValue)
    (env : ℕ → Bool → TxIsolation → Attempt t.State W) where
  run_rest-Faithful :
      (batch : Bool) (done queue : List (QueuedOp Op)) (outcomes : List (Result DbError R))
      (claims : List (Op × R)) (s : t.State)
      → length done ≡ length outcomes
      → release_claims (done ++ queue) outcomes ≡ claims
      → Faithful (done ++ queue) (run_ops t run reply env batch queue outcomes claims s)
  unfolding run_ops
  run_rest-Faithful batch done [] outcomes claims s even same = record {
    same_claims = same;
    all_ran =
        λ s' e. omega (arith, even, length-append done (let q : List (QueuedOp Op) = [] in q));
  }
  run_rest-Faithful batch done (op ∷ queue) outcomes claims s even same =
      let o : Result DbError R = (run op.op s).0 in
      let s' : t.State = (run op.op s).1 in
      let claims' : List (Op × R) = claims ++ success op.op o in
      let rest : Run Op R t.State =
        run_ops t run reply env batch queue (outcomes ++ o ∷ []) claims' s' in
      let shift : (done ++ op ∷ []) ++ queue ≡ done ++ op ∷ queue =
        append_assoc done (op ∷ []) queue in
      let more : release_claims (done ++ op ∷ queue) (outcomes ++ o ∷ []) ≡ claims' =
        release_claims-snoc done queue op outcomes o even ∙ ap (λ cs. cs ++ success op.op o) same in
      let cut : Run Op R t.State = record {
        outcomes = outcomes;
        claims = claims;
        ending = conflicted;
      } in
      let stopped : Run Op R t.State = record {
        outcomes = outcomes;
        claims = claims;
        ending = failed (reply op.op o);
      } in
      Faithful-if (is_retryable_conflict o) (done ++ op ∷ queue) cut
        (if is_err o && not batch then stopped else rest)
        (record { same_claims = same; all_ran = λ s'' e. absurd (other_ending s'' e) })
        (Faithful-if (is_err o && not batch) (done ++ op ∷ queue) stopped rest
          (record {
            same_claims = same;
            all_ran = λ s'' e. absurd (failed_ending s'' (reply op.op o) e);
          })
          (subst (λ q. Faithful q rest) shift
            (run_rest-Faithful batch (done ++ op ∷ []) queue (outcomes ++ o ∷ []) claims' s'
              (omega (arith, even, length-append done (op ∷ []), length-append outcomes (o ∷ [])))
              (subst (λ q. release_claims q (outcomes ++ o ∷ []) ≡ claims') (sym shift) more))))
    where
      other_ending : (s : t.State) → ◌≡◌ {A = Ending t.State} conflicted (finished s) → ⊥
      other_ending s e = cc

      failed_ending :
          (s : t.State) (v : RespValue) → ◌≡◌ {A = Ending t.State} (failed v) (finished s) → ⊥
      failed_ending s v e = cc

  pub run_ops-Faithful :
      (batch : Bool) (queue : List (QueuedOp Op)) (s : t.State)
      → Faithful queue (run_ops t run reply env batch queue [] [] s)
  run_ops-Faithful batch queue s =
      run_rest-Faithful batch [] queue [] [] s refl (unfold release_claims in refl)

pub length-reply_all :
    {Op R : Type 0} (reply : Op → Result DbError R → RespValue) (queue : List (QueuedOp Op))
    (outcomes : List (Result DbError R))
    → length outcomes ≤ length queue
    → length (reply_all reply queue outcomes) ≡ length outcomes
unfolding reply_all
length-reply_all reply queue [] h = refl
length-reply_all reply [] (o ∷ outcomes) h = absurd (omega arith)
length-reply_all reply (op ∷ queue) (o ∷ outcomes) h =
    omega (arith, length-reply_all reply queue outcomes (omega arith))
