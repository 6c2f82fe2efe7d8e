-- ===== src/Examples/Dispatching.antt =====
-- A session that writes one entry, whose first commit loses to another writer.
use invar.Prelude.{
  ℕ, zero, suc, ◌<◌, ◌≡◌, refl, Bool, true, false, some, List, [], ◌∷◌, Result, ok, err, Bytes,
  arith,
}
use invar.Kv.{KvError, conflict, Entry, DbError}
use invar.Resp.Value.{RespValue, simple_string}
use invar.Registry.{new_registry, bump_versions, get_version}
use invar.Watch.{Watched, WatchSet, snapshot_and_watch}
use invar.Multi.{Session, needs_ssi}
use invar.Dispatch.{TxIsolation, Attempt, isolation_of, watch_failed, run_ops, dispatch_pending_ops}
use invar.Dispatch.Settle.{Ends, dispatch_pending_ops-Ends}
use invar.Dispatch.Retry.{Reaches, CommitsWith, dispatch_commits_later}
use invar.Dispatch.Exec.{exec_after_write}
use invar.Examples.Memory.{Memory, memory, empty, write, item_of}

abbrev key : Bytes
key = b'k' ∷ []

abbrev put_entry : Entry → Memory → Result DbError ℕ × Memory
put_entry e s = (ok 1, write s e.key (ok (item_of e)))

abbrev answer : Entry → Result DbError ℕ → RespValue
answer e r = simple_string []

-- The first commit is lost, and the later ones are not.
abbrev commit_of : ℕ → Result KvError ℕ
commit_of zero = err conflict
commit_of (suc n) = ok 7

abbrev store : ℕ → Bool → TxIsolation → Attempt Memory ℕ
store n mutating isolation = record {
  begin = ok empty;
  registry = bump_versions new_registry (key ∷ []);
  commit = λ s. commit_of n;
}

abbrev writer : List Watched → Session Entry
writer watched = record {
  queue =
      record {
        op = record { key = key; value = b'v' ∷ []; meta = 0; ttl = 0 };
        is_mutating = true;
        allowed_in_tx = true;
        abort_in_tx = false;
        keys = some (key ∷ []);
      }
      ∷ [];
  in_multi = false;
  dirty_exec = false;
  in_script = false;
  should_close = false;
  watched_keys = watched;
}

dispatch_pending_ops-Ends_example :
    Ends false
      (writer [])
      4
      (dispatch_pending_ops memory put_entry answer store false (writer []) 0 3)
dispatch_pending_ops-Ends_example =
    dispatch_pending_ops-Ends memory put_entry answer store false (writer []) 0 3 refl refl
      (omega arith)

reaches : (n : ℕ) → Reaches memory put_entry answer store false (writer []) 0 n (commit_of n)
reaches n = record {
  tx = empty;
  end = write empty key (ok (item_of (record { key = key; value = b'v' ∷ []; meta = 0; ttl = 0 })));
  begun = refl;
  unwatched = refl;
  ran = unfold run_ops in refl;
  answered = refl;
}

lost : (j : ℕ) → j < 1 → Reaches memory put_entry answer store false (writer []) 0 j (err conflict)
lost zero h = reaches 0
lost (suc j) h = absurd (omega arith)

dispatch_commits_later_example :
    CommitsWith memory put_entry answer store false
      (writer [])
      0
      7
      (dispatch_pending_ops memory put_entry answer store false (writer []) 0 3)
dispatch_commits_later_example =
    dispatch_commits_later memory put_entry answer store false (writer []) 0 1 3 7 refl refl
      (omega arith) (unfold isolation_of needs_ssi in refl) (omega arith) lost (reaches 1)

abbrev watched : WatchSet
watched =
    snapshot_and_watch memory new_registry (ok empty)
      (record { watched_keys = []; watch_flush_epoch = 0 }) (key ∷ [])

exec_after_write_example :
    dispatch_pending_ops memory put_entry answer store true
      (writer watched.watched_keys)
      watched.watch_flush_epoch
      3
    ≡ some (watch_failed (writer watched.watched_keys) [])
exec_after_write_example =
    exec_after_write memory put_entry answer store (writer watched.watched_keys) new_registry
      (ok empty) (record { watched_keys = []; watch_flush_epoch = 0 }) (key ∷ []) (key ∷ []) key
      empty 3 refl refl (omega arith) (unfold get_version new_registry in omega arith) refl refl
      refl refl refl (omega arith)
