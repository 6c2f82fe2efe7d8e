-- ===== src/Bitmap/BitOp.antt =====
-- src/redis/bitmap.rs: `BITOP`. The result of the loops over `j` is built byte by byte.
pub mod Combine
use Prim.Native.Nat.{bit_and, bit_or, bit_xor, max}
use invar.Prelude.{
  ℕ, zero, suc, ◌+◌, ◌-◌, ◌*◌, ◌/◌, ◌%◌, ◌^◌, Bool, true, false, Option, none, some, List, [], ◌∷◌,
  length, ltb, ◌==◌, if◌then◌else◌, Result, ok, err, ◌>>=◌, Bytes,
}
use invar.Kv.{
  Tx, KvError, key_not_found, Entry, Item, new_entry, with_metadata, DbError, kv, from_kv,
}
use invar.Bitmap.{type_string, get_or_zero, zeros, mask}

pub data BitOpType : Type 0 where
  and_op or_op xor_op not_op diff diff1 and_or one : BitOpType

abbrev pub Sources : Type 0
Sources = List (Option Bytes)

-- The sources that exist, `iter().flatten()`.
unfoldable pub present : Sources → List Bytes
present [] = []
present (none ∷ sources) = present sources
present (some s ∷ sources) = s ∷ present sources

unfoldable pub max_len : List Bytes → ℕ
max_len [] = 0
max_len (s ∷ sources) = max (length s) (max_len sources)

-- `vec![b; n]`
unfoldable pub filled : ℕ → ℕ → Bytes
filled zero b = []
filled (suc n) b = b ∷ filled n b

-- `for j in 0..s.len()`: the bytes behind the end of the source stay.
unfoldable pub over_source : (ℕ → ℕ → ℕ) → Bytes → Bytes → Bytes
over_source f [] s = []
over_source f (r ∷ result) [] = r ∷ result
over_source f (r ∷ result) (b ∷ s) = f r b ∷ over_source f result s

-- `for j in 0..max_len`: behind the end of the source the bytes are zero.
unfoldable pub and_source : Bytes → Bytes → Bytes
and_source [] s = []
and_source (r ∷ result) [] = 0 ∷ and_source result []
and_source (r ∷ result) (b ∷ s) = bit_and r b ∷ and_source result s

unfoldable pub over_sources : (ℕ → ℕ → ℕ) → Bytes → List Bytes → Bytes
unfolding over_source
over_sources f result [] = result
over_sources f result (s ∷ sources) = over_sources f (over_source f result s) sources

unfoldable pub and_sources : Bytes → List Bytes → Bytes
unfolding and_source
and_sources result [] = result
and_sources result (s ∷ sources) = and_sources (and_source result s) sources

-- A missing source clears the result and ends the loop.
unfoldable pub and_all : Bytes → Sources → Bytes
unfolding and_source
and_all result [] = result
and_all result (none ∷ sources) = zeros (length result)
and_all result (some s ∷ sources) = and_all (and_source result s) sources

-- `!b` on a byte.
abbrev pub complement : ℕ → ℕ
complement b = 255 - b

abbrev pub and_not : ℕ → ℕ → ℕ
and_not r b = bit_and r (complement b)

-- The complement of the first source, and ones behind its end. NOT has one source, which has no
-- byte behind its end.
unfoldable pub complement_source : ℕ → Bytes → Bytes
complement_source zero s = []
complement_source (suc n) [] = 255 ∷ complement_source n []
complement_source (suc n) (b ∷ s) = complement b ∷ complement_source n s

abbrev pub replace : ℕ → ℕ → ℕ
replace r b = b

-- The first source, in a result of zeros.
unfoldable pub first_source : ℕ → Option Bytes → Bytes
unfolding over_source
first_source n none = zeros n
first_source n (some s) = over_source replace (zeros n) s

unfoldable pub not_first : ℕ → Option Bytes → Bytes
unfolding complement_source filled
not_first n none = filled n 255
not_first n (some s) = complement_source n s

abbrev pub unless_none : List Bytes → Bytes → ℕ → Bytes
unless_none [] result n = zeros n
unless_none (s ∷ sources) result n = result

-- How many of the sources have the bit.
unfoldable pub count_sources : List Bytes → ℕ → ℕ
count_sources [] bit_pos = 0
count_sources (s ∷ sources) bit_pos =
    let rest = count_sources sources bit_pos in
    if bit_and (get_or_zero s (bit_pos / 8)) (mask bit_pos) == 0 then rest else rest + 1

-- The bits of one byte of `ONE`, from the bit `7 - k` of it on.
unfoldable pub one_bits : ℕ → List Bytes → ℕ → ℕ → ℕ
unfolding count_sources
one_bits zero sources bit_pos byte = byte
one_bits (suc k) sources bit_pos byte =
    one_bits k sources (bit_pos + 1)
      (if count_sources sources bit_pos == 1 then bit_or byte (mask bit_pos) else byte)

unfoldable pub one_bytes : ℕ → List Bytes → ℕ → Bytes
unfolding one_bits
one_bytes zero sources bit_pos = []
one_bytes (suc n) sources bit_pos = one_bits 8 sources bit_pos 0 ∷ one_bytes n sources (bit_pos + 8)

-- `sources[0]` and the others. No source at all is a panic for the operations that name the first;
-- the command table demands one.
abbrev pub first : Sources → Option Bytes
first [] = none
first (s ∷ sources) = s

abbrev pub others : Sources → List Bytes
unfolding present
others [] = []
others (s ∷ sources) = present sources

unfoldable pub bit_op_in : BitOpType → Sources → ℕ → Bytes
unfolding and_all over_sources and_sources first_source not_first one_bytes others
bit_op_in and_op sources n = and_all (filled n 255) sources
bit_op_in or_op sources n = over_sources bit_or (zeros n) (present sources)
bit_op_in xor_op sources n = over_sources bit_xor (zeros n) (present sources)
bit_op_in not_op sources n = not_first n (first sources)
bit_op_in diff sources n = over_sources and_not (first_source n (first sources)) (others sources)
bit_op_in diff1 sources n =
    unless_none (others sources) (and_sources (not_first n (first sources)) (others sources)) n
bit_op_in and_or sources n =
    unless_none (others sources)
      (over_source bit_and (first_source n (first sources))
        (over_sources bit_or (zeros n) (others sources)))
      n
bit_op_in one sources n = one_bytes n (present sources) 0

module _ (t : Tx) where
  open t use {State, get, set}

  unfoldable pub read_source : Result KvError Item → Result DbError (Option Bytes)
  read_source (ok item) = ok (some item.value)
  read_source (err key_not_found) = ok none
  read_source (err e) = err (kv e)

  unfoldable pub read_sources : State → List Bytes → Result DbError Sources
  unfolding read_source
  read_sources s [] = ok []
  read_sources s (key ∷ keys) = do
    source ← read_source (get s key)
    sources ← read_sources s keys
    ok (source ∷ sources)

  -- `BitOpOp::run`. The destination loses its time to live.
  unfoldable pub bit_op : State → Bytes → BitOpType → List Bytes → Result DbError (ℕ × State)
  unfolding read_sources bit_op_in new_entry with_metadata
  bit_op s dest_key op src_keys = do
    sources ← read_sources s src_keys
    let n = max_len (present sources)
    s' ← from_kv (set s (with_metadata (new_entry dest_key (bit_op_in op sources n)) type_string))
    ok (n, s')
