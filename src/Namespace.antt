-- ===== src/Namespace.antt =====
-- src/redis/common/namespace.rs: where the elements of a compound value live. A sentinel whose type
-- byte has the high bit ends with a trailer that records the prefix.
pub mod Laws
pub mod Store
use Prim.Native.Nat.{bit_and, bit_or}
use invar.Prelude.{
  ℕ, zero, suc, ◌+◌, ◌-◌, ◌≤◌, ◌<◌, Bool, true, false, not, Option, none, some, List, [], ◌∷◌, ◌++◌,
  length, take, drop, ltb, leb, ◌==◌, ◌&&◌, if◌then◌else◌, Result, ok, err, ◌>>=◌, Bytes,
  to_be_bytes, from_be_bytes,
}
use invar.Kv.{
  Tx, KvError, key_not_found, Entry, Item, new_entry, with_metadata, keep_ttl_of, DbError, kv,
  redis, corrupt_trailer, malformed_prefix, namespace_dropped, from_kv,
}
use invar.Resp.Number.{is_digit, decimal, show_int}
use invar.Prelude.Int.{ℤ}

abbrev pub namespace_flag : ℕ
namespace_flag = 0x80

-- `metadata & !NAMESPACE_FLAG` on a byte
abbrev pub base_type : ℕ → ℕ
base_type metadata = bit_and metadata 0x7f

abbrev pub is_namespaced : ℕ → Bool
is_namespaced metadata = not (bit_and metadata namespace_flag == 0)

pub record ElementPrefix : Type 0 where
  pub bytes : Bytes
  pub explicit : Bool

abbrev pub legacy_prefix : Bytes → ElementPrefix
legacy_prefix bytes = record { bytes = bytes; explicit = false }

abbrev pub explicit_prefix : Bytes → ElementPrefix
explicit_prefix bytes = record { bytes = bytes; explicit = true }

-- The payload and the prefix of a namespaced sentinel.
unfoldable pub split_trailer : Bytes → Result DbError (Bytes × Bytes)
split_trailer value =
    let len_at = length value - 4 in
    let len = from_be_bytes (drop len_at value) in
    let prefix_at = len_at - len in
    if ltb (length value) 4
    then err (redis corrupt_trailer)
    else if ltb len_at len
    then err (redis corrupt_trailer)
    else ok (take prefix_at value, take len (drop prefix_at value))

unfoldable pub payload : Item → Result DbError Bytes
unfolding split_trailer
payload item =
    if is_namespaced item.meta
    then (do (body, prefix) ← split_trailer item.value; ok body)
    else ok item.value

unfoldable pub prefix_of : Item → Bytes → Result DbError ElementPrefix
unfolding split_trailer
prefix_of item legacy =
    if is_namespaced item.meta
    then (do (body, prefix) ← split_trailer item.value; ok (explicit_prefix prefix))
    else ok (legacy_prefix legacy)

-- What stands before the first colon, and the colon with what follows it.
unfoldable pub split_colon : Bytes → Option (Bytes × Bytes)
split_colon [] = none
split_colon (b ∷ bs) =
    if b == b':'
    then some ([], b ∷ bs)
    else elim (split_colon bs) [ none ↦ none | some (front, back) ↦ some (b ∷ front, back) ]

abbrev pub all_digits : Bytes → Bool
all_digits [] = true
all_digits (b ∷ bs) = is_digit b && all_digits bs

-- `!digits.is_empty() && digits.iter().all(u8::is_ascii_digit)`
abbrev pub is_number : Bytes → Bool
is_number [] = false
is_number (b ∷ bs) = all_digits (b ∷ bs)

-- The slice `prefix[1..0]` of a prefix that starts with its colon.
pub data Panic : Type 0 where
  slice_out_of_order : Panic

unfoldable pub with_db : Bytes → ℤ → Result Panic (Option Bytes)
unfolding split_colon
with_db prefix db = elim (split_colon prefix) [
  | none ↦ ok none
  | some ([], back) ↦ err slice_out_of_order
  | some (kind ∷ digits, back) ↦
      if is_number digits then ok (some (kind ∷ (show_int db ++ back))) else ok none
]

-- `id` is the 16 bytes that the random generator gives.
unfoldable pub new_namespace : Bytes → Bytes → Result DbError ElementPrefix
unfolding split_colon
new_namespace id legacy = elim (split_colon legacy) [
  | none ↦ err (redis malformed_prefix)
  | some ([], back) ↦ err (redis malformed_prefix)
  | some (kind ∷ db, back) ↦
      if is_number db
      then ok (explicit_prefix (b'+' ∷ (db ++ b':' ∷ id)))
      else err (redis malformed_prefix)
]

-- The stored value and its type byte. `len as u32` keeps the low 32 bits.
unfoldable pub encode_sentinel : Bytes → ℕ → ElementPrefix → Bytes × ℕ
encode_sentinel body type_byte prefix =
    if prefix.explicit
    then (
      body ++ (prefix.bytes ++ to_be_bytes (length prefix.bytes)),
      bit_or type_byte namespace_flag,
    )
    else (body, type_byte)

-- The entry that `write_sentinel` writes.
unfoldable pub sentinel_entry : Bytes → Bytes → ℕ → ElementPrefix → Entry
unfolding encode_sentinel new_entry with_metadata
sentinel_entry public_key body type_byte prefix =
    let (value, metadata) = encode_sentinel body type_byte prefix in
    with_metadata (new_entry public_key value) metadata

module _ (t : Tx) where
  open t use {State, get, set}

  unfoldable pub resolve_prefix_for_write :
      Bytes → State → Bytes → Bytes → Result DbError ElementPrefix
  unfolding prefix_of new_namespace
  resolve_prefix_for_write id s public_key legacy = elim (get s public_key) [
    | ok item ↦ prefix_of item legacy
    | err key_not_found ↦ new_namespace id legacy
    | err e ↦ err (kv e)
  ]

  unfoldable pub resolve_prefix : State → Bytes → Bytes → Result DbError ElementPrefix
  unfolding prefix_of
  resolve_prefix s public_key legacy = elim (get s public_key) [
    | ok item ↦ prefix_of item legacy
    | err key_not_found ↦ ok (legacy_prefix legacy)
    | err e ↦ err (kv e)
  ]

  -- The guard and the write, by what stands under the public key. The entry takes over the time
  -- that the existing one has left.
  unfoldable pub write_over : ℕ → State → Entry → Bool → Result KvError Item → Result DbError State
  unfolding keep_ttl_of
  write_over now s entry explicit (ok item) =
      if is_namespaced item.meta && not explicit
      then err (redis namespace_dropped)
      else from_kv (set s (keep_ttl_of now entry item))
  write_over now s entry explicit (err key_not_found) = from_kv (set s entry)
  write_over now s entry explicit (err e) = err (kv e)

  unfoldable pub write_sentinel :
      ℕ → State → Bytes → Bytes → ℕ → ElementPrefix → Result DbError State
  unfolding sentinel_entry write_over
  write_sentinel now s public_key body type_byte prefix =
      write_over now s (sentinel_entry public_key body type_byte prefix) prefix.explicit
        (get s public_key)
