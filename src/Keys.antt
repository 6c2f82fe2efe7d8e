-- ===== src/Keys.antt =====
-- src/redis/common/session.rs: the storage keys that a session derives from the current database.
pub mod Distinct
use invar.Prelude.{ℕ, List, [], ◌∷◌, ◌++◌, Bytes}
use invar.Prelude.Int.{ℤ}
use invar.Resp.Number.{show_int}

-- `prefix`, in the database `db`.
unfoldable pub prefix : ℤ → Bytes
prefix db = show_int db ++ b':' ∷ []

abbrev pub internal_prefix : Bytes
internal_prefix = b'-' ∷ []

unfoldable pub private_prefix : ℤ → Bytes
unfolding prefix
private_prefix db = internal_prefix ++ prefix db

unfoldable pub public_key : ℤ → Bytes → Bytes
unfolding prefix
public_key db key = prefix db ++ key

unfoldable pub public_key_for_db : ℤ → Bytes → Bytes
public_key_for_db db key = (show_int db ++ b':' ∷ []) ++ key

unfoldable pub private_key : ℤ → Bytes → Bytes
unfolding prefix
private_key db key = (internal_prefix ++ prefix db) ++ key
