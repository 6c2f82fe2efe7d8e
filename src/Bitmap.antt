-- ===== src/Bitmap.antt =====
-- src/redis/bitmap.rs: bits of a stored string. Bit 0 is the highest bit of the first byte. Offsets
-- are natural numbers, since the commands refuse negative ones before they get here.
pub mod Bits
pub mod Store
pub mod Counts
pub mod BitOp
use Prim.Native.Nat.{bit_and, bit_or}
use invar.Prelude.{
  ℕ, zero, suc, ◌+◌, ◌-◌, ◌*◌, ◌/◌, ◌%◌, ◌^◌, Bool, true, false, not, Option, none, some, List, [],
  ◌∷◌, ◌++◌, length, take, drop, ltb, leb, ◌==◌, ◌&&◌, ◌||◌, if◌then◌else◌, Result, ok, err, ◌>>=◌,
  Bytes,
}
use invar.Prelude.Int.{ℤ, pos, negsuc, sub_ℕ}
use invar.Kv.{
  Tx, KvError, key_not_found, Entry, Item, new_entry, with_metadata, set_keeping_ttl, DbError, kv,
  from_kv,
}

abbrev pub type_string : ℕ
type_string = 0

abbrev pub get_or_zero : Bytes → ℕ → ℕ
get_or_zero [] i = 0
get_or_zero (b ∷ bs) zero = b
get_or_zero (b ∷ bs) (suc i) = get_or_zero bs i

abbrev pub put_byte : Bytes → ℕ → ℕ → Bytes
put_byte [] i v = []
put_byte (b ∷ bs) zero v = v ∷ bs
put_byte (b ∷ bs) (suc i) v = b ∷ put_byte bs i v

-- `vec![0u8; n]`
abbrev pub zeros : ℕ → Bytes
zeros zero = []
zeros (suc n) = 0 ∷ zeros n

-- `1u8 << (7 - offset % 8)`
abbrev pub mask : ℕ → ℕ
mask offset = 2 ^ (7 - offset % 8)

-- The extension with zero bytes, when the byte of the bit lies behind the end.
unfoldable pub extend_to : Bytes → ℕ → Bytes
extend_to bytes byte_index =
    if leb (length bytes) byte_index then bytes ++ zeros (byte_index + 1 - length bytes) else bytes

abbrev pub change_bit : ℕ → ℕ → ℕ → ℕ
change_bit byte m value = if value == 1 then bit_or byte m else bit_and byte (255 - m)

-- The new bytes and the previous bit.
unfoldable pub set_bit_in : Bytes → ℕ → ℕ → Bytes × ℕ
unfolding extend_to
set_bit_in bytes offset value =
    let longer = extend_to bytes (offset / 8) in
    let byte = get_or_zero longer (offset / 8) in
    (
      put_byte longer (offset / 8) (change_bit byte (mask offset) value),
      bit_and byte (mask offset) / mask offset,
    )

unfoldable pub get_bit_in : Bytes → ℕ → ℕ
get_bit_in bytes offset =
    if leb (length bytes) (offset / 8)
    then 0
    else if bit_and (get_or_zero bytes (offset / 8)) (mask offset) == 0
    then 0
    else 1

-- The bounds of a range with negative indices counted from the end.
unfoldable pub range_start : ℤ → ℕ → ℕ
range_start (pos n) total = n
range_start (negsuc n) total = total - suc n

unfoldable pub range_end : ℤ → ℕ → ℤ
range_end (negsuc n) total = sub_ℕ total (suc n)
range_end (pos n) total = if leb total n then sub_ℕ total 1 else pos n

-- The range to scan; `none` where it is empty, `start > end || start >= total`.
abbrev pub range_between : ℕ → ℤ → ℕ → Option (ℕ × ℕ)
range_between start (negsuc n) total = none
range_between start (pos end) total =
    if ltb end start || leb total start then none else some (start, end)

unfoldable pub bit_range : ℤ → ℤ → ℕ → Option (ℕ × ℕ)
unfolding range_start range_end
bit_range start end total = range_between (range_start start total) (range_end end total) total

-- `for bit in start..=end`, by the rounds that are left.
unfoldable pub count_bits : ℕ → Bytes → ℕ → ℕ
unfolding get_bit_in
count_bits zero bytes bit = 0
count_bits (suc rounds) bytes bit = get_bit_in bytes bit + count_bits rounds bytes (bit + 1)

-- `u8::count_ones`, the ones among the binary digits.
unfoldable pub ones_among : ℕ → ℕ → ℕ
ones_among zero b = 0
ones_among (suc digits) b = b % 2 + ones_among digits (b / 2)

unfoldable pub count_ones : ℕ → ℕ
unfolding ones_among
count_ones b = ones_among 8 b

-- `for i in start..=end { count += data[i].count_ones() }`
unfoldable pub count_bytes : ℕ → Bytes → ℕ → ℕ
unfolding count_ones
count_bytes zero bytes i = 0
count_bytes (suc rounds) bytes i =
    count_ones (get_or_zero bytes i) + count_bytes rounds bytes (i + 1)

unfoldable pub bit_count_in : Bytes → Bool → ℤ → ℤ → Bool → ℕ
unfolding count_bytes bit_range
bit_count_in bytes start_given start end use_bit =
    if not start_given
    then count_bytes (length bytes) bytes 0
    else if use_bit
    then (elim (bit_range start end (length bytes * 8)) [
      | none ↦ 0
      | some (lo, hi) ↦ count_bits (hi + 1 - lo) bytes lo
    ])
    else (elim (bit_range start end (length bytes)) [
      | none ↦ 0
      | some (lo, hi) ↦ count_bytes (hi + 1 - lo) bytes lo
    ])

-- The inner `while` of `bit_pos_in_range`, by the rounds that are left.
unfoldable pub scan_bits : ℕ → ℕ → ℕ → ℕ → Option ℕ
scan_bits zero byte bit bit_pos = none
scan_bits (suc rounds) byte bit bit_pos =
    let rest = scan_bits rounds byte bit (bit_pos + 1) in
    let is_set = not (bit_and byte (2 ^ (7 - bit_pos)) == 0) in
    if bit == 1 && is_set || bit == 0 && not is_set then some bit_pos else rest

-- The outer one, over the bytes from `byte_idx` on.
unfoldable pub scan_bytes : Bytes → ℕ → ℕ → ℕ → ℕ → Option ℕ
unfolding scan_bits
scan_bytes [] byte_idx start_bit end_bit bit = none
scan_bytes (b ∷ bs) byte_idx start_bit end_bit bit =
    let bit_start : ℕ = if byte_idx == start_bit / 8 then start_bit % 8 else 0 in
    let bit_end : ℕ = if byte_idx == end_bit / 8 then end_bit % 8 else 7 in
    let found = scan_bits (bit_end + 1 - bit_start) b bit bit_start in
    let rest = scan_bytes bs (byte_idx + 1) start_bit end_bit bit in
    if leb byte_idx (end_bit / 8)
    then (elim found [ some p ↦ some (byte_idx * 8 + p) | none ↦ rest ])
    else none

-- `none` is the source's -1.
unfoldable pub bit_pos_in_range : Bytes → ℕ → ℕ → ℕ → Option ℕ
unfolding scan_bytes
bit_pos_in_range bytes start_bit end_bit bit =
    scan_bytes (drop (start_bit / 8) bytes) (start_bit / 8) start_bit end_bit bit

abbrev pub position : Option ℕ → ℤ
position none = negsuc 0
position (some p) = pos p

-- The result of `BITPOS` over the stored bytes.
unfoldable pub bit_pos_in : Bytes → ℕ → Bool → ℤ → ℤ → Bool → ℤ
unfolding bit_pos_in_range bit_range
bit_pos_in bytes bit start_given start end use_bit =
    if not start_given
    then (elim (bit_pos_in_range bytes 0 (length bytes * 8 - 1) bit) [
      | some p ↦ pos p
      | none ↦ if bit == 0 then pos (length bytes * 8) else negsuc 0
    ])
    else if use_bit
    then (elim (bit_range start end (length bytes * 8)) [
      | none ↦ negsuc 0
      | some (lo, hi) ↦ position (bit_pos_in_range bytes lo hi bit)
    ])
    else (elim (bit_range start end (length bytes)) [
      | none ↦ negsuc 0
      | some (lo, hi) ↦
          let last : ℕ = hi * 8 + 7 in
          let end_bit : ℕ = if leb (length bytes * 8) last then length bytes * 8 - 1 else last in
          position (bit_pos_in_range bytes (lo * 8) end_bit bit)
    ])

module _ (t : Tx) where
  open t use {State, get}

  -- The bytes under the key, or as many zeros as the bit needs.
  unfoldable pub stored_bytes : Result KvError Item → ℕ → Result DbError Bytes
  stored_bytes (ok item) byte_index = ok item.value
  stored_bytes (err key_not_found) byte_index = ok (zeros (byte_index + 1))
  stored_bytes (err e) byte_index = err (kv e)

  unfoldable pub store_bits : ℕ → State → Bytes → Bytes × ℕ → Result DbError (ℕ × State)
  unfolding set_keeping_ttl new_entry with_metadata
  store_bits now s key (bytes, old_bit) = do
    s' ← from_kv (set_keeping_ttl t now s (with_metadata (new_entry key bytes) type_string))
    ok (old_bit, s')

  -- `SetBitOp::run`: the previous bit.
  unfoldable pub set_bit : ℕ → State → Bytes → ℕ → ℕ → Result DbError (ℕ × State)
  unfolding stored_bytes set_bit_in store_bits
  set_bit now s key offset value = do
    bytes ← stored_bytes (get s key) (offset / 8)
    store_bits now s key (set_bit_in bytes offset value)

  -- The reading commands: an answer from the bytes under the key, or the one for a missing key.
  unfoldable pub read_bytes :
      {A : Type 0} → Result KvError Item → A → (Bytes → A) → Result DbError A
  read_bytes (ok item) missing f = ok (f item.value)
  read_bytes (err key_not_found) missing f = ok missing
  read_bytes (err e) missing f = err (kv e)

  -- `GetBitOp::run`
  unfoldable pub get_bit : State → Bytes → ℕ → Result DbError ℕ
  unfolding read_bytes get_bit_in
  get_bit s key offset = read_bytes (get s key) 0 (λ bytes. get_bit_in bytes offset)

  -- `BitCountOp::run`
  unfoldable pub bit_count : State → Bytes → Bool → ℤ → ℤ → Bool → Result DbError ℕ
  unfolding read_bytes bit_count_in
  bit_count s key start_given start end use_bit =
      read_bytes (get s key) 0 (λ bytes. bit_count_in bytes start_given start end use_bit)

  -- `BitPosOp::run`
  unfoldable pub bit_pos : State → Bytes → ℕ → Bool → ℤ → ℤ → Bool → Result DbError ℤ
  unfolding read_bytes bit_pos_in
  bit_pos s key bit start_given start end use_bit =
      read_bytes (get s key) (if bit == 0 then pos 0 else negsuc 0)
        (λ bytes. bit_pos_in bytes bit start_given start end use_bit)
