-- ===== src/Kv.antt =====
-- src/kv/kv.rs: entries and items, and the transaction that commands run in. A transaction is an
-- interface here as it is there; its laws are what the crate's documentation promises of the reads
-- and buffered writes of one transaction. Keys and values are byte strings, times are milliseconds.
pub mod Writes
use invar.Prelude.{
  ℕ, ◌-◌, ◌≡◌, Bool, false, true, Option, none, some, List, Bytes, bytes_eq, Result, ok, err, ◌==◌,
}
use mathlib.Core.Option

pub data KvError : Type 0 where
  key_not_found conflict db_closed undefined : KvError

-- A `ttl` of zero is none.
pub record Entry : Type 0 where
  pub key : Bytes
  pub value : Bytes
  pub meta : ℕ
  pub ttl : ℕ

unfoldable pub new_entry : Bytes → Bytes → Entry
new_entry key value = record { key = key; value = value; meta = 0; ttl = 0 }

unfoldable pub with_metadata : Entry → ℕ → Entry
with_metadata e meta = record e { meta = meta }

unfoldable pub with_ttl : Entry → ℕ → Entry
with_ttl e duration = record e { ttl = duration }

pub record Item : Type 0 where
  pub key : Bytes
  pub value : Bytes
  pub meta : ℕ
  pub expire_ts : Option ℕ

-- `ts.saturating_sub(now).max(0)`: the subtraction of the natural numbers stops at zero.
unfoldable pub item_ttl : ℕ → Item → Option ℕ
item_ttl now i = Option.map (λ ts. ts - now) i.expire_ts

unfoldable pub is_expired : ℕ → Item → Bool
unfolding item_ttl
is_expired now i = elim (item_ttl now i) [ none ↦ false | some remaining ↦ remaining == 0 ]

-- `now` is the time of the call, which is later than that of the read that gave the item.
unfoldable pub keep_ttl_of : ℕ → Entry → Item → Entry
unfolding item_ttl with_ttl
keep_ttl_of now e i = elim (item_ttl now i) [ none ↦ e | some remaining ↦ with_ttl e remaining ]

-- What a transaction answers for an entry that it holds.
pub record Holds (e : Entry) (r : Result KvError Item) : Type 0 where
  pub item : Item
  pub found : r ≡ ok item
  pub same_value : item.value ≡ e.value
  pub same_meta : item.meta ≡ e.meta
  pub unlimited : e.ttl ≡ 0 → item.expire_ts ≡ none

pub record Tx : Type 1 where
  pub State : Type 0
  pub get : State → Bytes → Result KvError Item
  pub set : State → Entry → Result KvError State
  pub delete : State → Bytes → Result KvError State
  pub get-set_self : (s s' : State) (e : Entry) → set s e ≡ ok s' → Holds e (get s' e.key)
  pub get-set_ne :
      (s s' : State) (e : Entry) (k : Bytes)
      → set s e ≡ ok s'
      → bytes_eq e.key k ≡ false
      → get s' k ≡ get s k
  pub get-delete_self :
      (s s' : State) (k : Bytes) → delete s k ≡ ok s' → get s' k ≡ err key_not_found
  pub get-delete_ne :
      (s s' : State) (k j : Bytes) → delete s k ≡ ok s' → bytes_eq k j ≡ false → get s' j ≡ get s j

-- src/redis/common/op.rs: the messages of `DbError::Redis` that the modelled code produces.
pub data Message : Type 0 where
  corrupt_trailer malformed_prefix namespace_dropped not_an_integer : Message

pub data DbError : Type 0 where
  kv : KvError → DbError
  wrong_type key_exists : DbError
  redis : Message → DbError

-- `?` on a result of the store.
abbrev pub from_kv : {A : Type 0} → Result KvError A → Result DbError A
from_kv (ok a) = ok a
from_kv (err e) = err (kv e)

module _ (t : Tx) where
  open t use {State, get, set}

  -- src/redis/common/mod.rs: `set_keeping_ttl`, by what stands under the key.
  unfoldable pub set_over : ℕ → State → Entry → Result KvError Item → Result KvError State
  unfolding keep_ttl_of
  set_over now s e (ok existing) = set s (keep_ttl_of now e existing)
  set_over now s e (err key_not_found) = set s e
  set_over now s e (err other) = err other

  unfoldable pub set_keeping_ttl : ℕ → State → Entry → Result KvError State
  unfolding set_over
  set_keeping_ttl now s e = set_over now s e (get s e.key)
