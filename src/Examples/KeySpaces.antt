-- ===== src/Examples/KeySpaces.antt =====
-- Keys of the databases 0 and 1, and a block between MULTI and EXEC.
use invar.Prelude.{ℕ, ◌≡◌, ◌≢◌, refl, [], ◌∷◌, Bytes, arith}
use invar.Prelude.Int.{pos}
use invar.Prelude.{true, false, none, List, ok}
use invar.Multi.{QueuedOp, Session, enter_multi, exit_multi}
use invar.Multi.Block.{Sent, command, failing, receive, exit_multi-receive}
use invar.Keys.{public_key, private_key}
use invar.Keys.Distinct.{public_key_distinct, private_key-public_key}

abbrev key : Bytes
key = b'k' ∷ []

abbrev db : ℕ
db = 1

public_key_distinct_example : (db ≡ db) × (key ≡ key)
public_key_distinct_example = public_key_distinct db db key key (omega arith) (omega arith) refl

private_key-public_key_example : private_key (pos 0) key ≢ public_key (pos 0) key
private_key-public_key_example = private_key-public_key 0 0 key key

abbrev op : QueuedOp ℕ
op = record { op = 7; is_mutating = true; allowed_in_tx = true; abort_in_tx = false; keys = none }

abbrev session : Session ℕ
session = record {
  queue = [];
  in_multi = false;
  dirty_exec = false;
  in_script = false;
  should_close = false;
  watched_keys = [];
}

abbrev sent : List (Sent ℕ)
sent = command op ∷ failing ∷ command op ∷ []

exit_multi-receive_example :
    (exit_multi (receive (enter_multi session) sent) false
      ≡ ok (record session { queue = op ∷ op ∷ []; in_multi = false; dirty_exec = true }))
    × (exit_multi (receive (enter_multi session) sent) true ≡ ok session)
exit_multi-receive_example = exit_multi-receive session sent
