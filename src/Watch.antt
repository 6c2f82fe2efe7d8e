-- ===== src/Watch.antt =====
-- src/redis/common/session.rs: WATCH. What a session records of each key, and the check of EXEC before
-- it runs the queue. A key is the storage key that `public_key` derives. The map of watched keys is an
-- association list in which a key stands once.
pub mod Detect
use invar.Prelude.{
  ℕ, Bool, true, false, Option, none, some, List, [], ◌∷◌, ◌==◌, ◌&&◌, if◌then◌else◌, Result, ok,
  err, Bytes, bytes_eq,
}
use invar.Kv.{Tx, KvError, key_not_found, Item}
use invar.Registry.{WatchRegistry, get_version}

pub record Watched : Type 0 where
  pub key : Bytes
  pub version : ℕ
  pub existed : Bool

pub record WatchSet : Type 0 where
  pub watched_keys : List Watched
  pub watch_flush_epoch : ℕ

-- `HashMap::insert`
unfoldable pub insert : Watched → List Watched → List Watched
insert w [] = w ∷ []
insert w (x ∷ xs) = let rest = insert w xs in if bytes_eq w.key x.key then w ∷ xs else x ∷ rest

unfoldable pub unwatch : WatchSet → WatchSet
unwatch ws = record ws { watched_keys = [] }

abbrev pub is_ok : Result KvError Item → Bool
is_ok (ok item) = true
is_ok (err e) = false

module _ (t : Tx) where
  open t use {State, get}

  -- Whether the key is there, in the transaction that WATCH began, if it could.
  abbrev pub existed_in : Result KvError State → Bytes → Bool
  existed_in (ok s) key = is_ok (get s key)
  existed_in (err e) key = false

  unfoldable pub watch_all :
      WatchRegistry → Result KvError State → List Bytes → List Watched → List Watched
  unfolding insert
  watch_all r tx [] watched = watched
  watch_all r tx (key ∷ keys) watched = watch_all r tx keys (
      insert (record { key = key; version = get_version r key; existed = existed_in tx key })
        watched)

  unfoldable pub snapshot_and_watch :
      WatchRegistry → Result KvError State → WatchSet → List Bytes → WatchSet
  unfolding watch_all
  snapshot_and_watch r tx ws keys = record {
    watched_keys = watch_all r tx keys ws.watched_keys;
    watch_flush_epoch = r.flush_epoch;
  }

  -- `exists_now`, or none where the read fails.
  abbrev pub exists_now : Result KvError Item → Option Bool
  exists_now (ok item) = some true
  exists_now (err key_not_found) = some false
  exists_now (err e) = none

  abbrev pub agrees : Option Bool → Bool → Bool
  agrees none existed = false
  agrees (some true) existed = existed
  agrees (some false) true = false
  agrees (some false) false = true

  unfoldable pub all_unchanged : WatchRegistry → State → List Watched → Bool
  all_unchanged r s [] = true
  all_unchanged r s (w ∷ ws) =
      let rest = all_unchanged r s ws in
      (get_version r w.key == w.version) && agrees (exists_now (get s w.key)) w.existed && rest

  -- Whether EXEC goes on to run its queue; if not, it answers the null array.
  unfoldable pub may_exec : WatchRegistry → State → WatchSet → Bool
  unfolding all_unchanged
  may_exec r s ws = elim ws.watched_keys [
    | [] ↦ true
    | w ∷ rest ↦ (r.flush_epoch == ws.watch_flush_epoch) && all_unchanged r s (w ∷ rest)
  ]
