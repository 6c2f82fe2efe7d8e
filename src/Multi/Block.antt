-- ===== src/Multi/Block.antt =====
-- A block of commands between MULTI and EXEC.
use invar.Prelude.{
  ◌≡◌, ◌∙◌, refl, sym, ap, Bool, true, false, List, [], ◌∷◌, ◌++◌, append_assoc, append-nil, ok,
  if◌then◌else◌,
}
use invar.Multi.{QueuedOp, Session, enter_multi, exit_multi, mark_dirty, enqueue_op}

-- What a client sends in a block: a command that is queued, or one that fails while it is queued.
pub data Sent (Op : Type 0) : Type 0 where
  command : QueuedOp Op → Sent Op
  failing : Sent Op

module _ {Op : Type 0} where
  unfoldable pub receive : Session Op → List (Sent Op) → Session Op
  unfolding enqueue_op mark_dirty
  receive s [] = s
  receive s (command op ∷ sent) = receive (enqueue_op s op).1 sent
  receive s (failing ∷ sent) = receive (mark_dirty s) sent

  abbrev pub commands : List (Sent Op) → List (QueuedOp Op)
  commands [] = []
  commands (command op ∷ sent) = op ∷ commands sent
  commands (failing ∷ sent) = commands sent

  abbrev pub has_failed : List (Sent Op) → Bool → Bool
  has_failed [] before = before
  has_failed (command op ∷ sent) before = has_failed sent before
  has_failed (failing ∷ sent) before = has_failed sent true

  receive_lem :
      (s : Session Op) (sent : List (Sent Op))
      → s.in_multi ≡ true
      → receive s sent
        ≡ record s { queue = s.queue ++ commands sent; dirty_exec = has_failed sent s.dirty_exec }
  unfolding receive enqueue_op mark_dirty
  receive_lem s [] h = ap (λ q. record s { queue = q }) (sym (append-nil s.queue))
  receive_lem s (command op ∷ sent) h =
      receive_lem (record s { queue = s.queue ++ op ∷ [] }) sent h
      ∙ ap (λ q. record s { queue = q; dirty_exec = has_failed sent s.dirty_exec })
          (append_assoc s.queue (op ∷ []) (commands sent))
  receive_lem s (failing ∷ sent) h =
      ap (λ x. receive x sent) (ap (λ b. if b then record s { dirty_exec = true } else s) h)
      ∙ receive_lem (record s { dirty_exec = true }) sent h

  -- A block that EXEC closes leaves the commands that were accepted, in the order that they were sent,
  -- behind the queue of before, and is flagged for abort exactly if one failed; DISCARD leaves an empty
  -- queue, no flag and no watched key.
  pub exit_multi-receive :
      (s : Session Op) (sent : List (Sent Op))
      → (exit_multi (receive (enter_multi s) sent) false
          ≡ ok (record s {
            queue = s.queue ++ commands sent;
            in_multi = false;
            dirty_exec = has_failed sent false;
          }))
        × (exit_multi (receive (enter_multi s) sent) true
            ≡ ok (record s { queue = []; in_multi = false; dirty_exec = false; watched_keys = [] }))
  exit_multi-receive s sent =
      rw (receive_lem (enter_multi s) sent (unfold enter_multi in refl))
        (unfold exit_multi enter_multi in (refl, refl))
