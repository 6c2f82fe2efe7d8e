-- ===== src/Examples/Stores.antt =====
-- Sentinels and bits in the store of Memory.antt.
use invar.Prelude.{
  none, ◌≡◌, ◌<◌, ◌+◌, refl, true, false, some, [], ◌∷◌, ok, ◌==◌, if◌then◌else◌, Bytes,
  to_be_bytes, arith,
}
use invar.Prelude.Int.{pos}
use invar.Bitmap.{bit_count_in}
use invar.Bitmap.Counts.{bit_count_in_units}
use invar.Kv.{Item, Entry, new_entry, is_expired, keep_ttl_of}
use invar.Kv.Writes.{keep_ttl_of_deadline}
use invar.Namespace.{ElementPrefix, explicit_prefix, resolve_prefix, write_sentinel, sentinel_entry}
use invar.Namespace.Laws.{ReadsBack}
use invar.Namespace.Store.{write_sentinel_resolve}
use invar.Bitmap.{set_bit_in, set_bit, get_bit, get_or_zero}
use invar.Bitmap.Store.{get_bit-set_bit, set_bit_overwrites}
use Prim.Native.Nat.{bit_or, bit_xor}
use invar.Bitmap.BitOp.{Sources, or_op, xor_op, bit_op_in}
use invar.Bitmap.BitOp.Combine.{combine_existing, bit_op_in-combine}
use invar.Examples.Memory.{memory, empty, write, item_of}

abbrev key : Bytes
key = b'k' ∷ []

abbrev prefix : ElementPrefix
prefix = explicit_prefix (b'+' ∷ b'0' ∷ b':' ∷ [])

abbrev session_item : Item
session_item = record { key = key; value = []; meta = 0; expire_ts = some 10 }

keep_ttl_of_deadline_example :
    (is_expired 4 session_item ≡ false
      → (0 < (keep_ttl_of 4 (new_entry key []) session_item).ttl)
        × (4 + (keep_ttl_of 4 (new_entry key []) session_item).ttl ≡ 10))
    × (is_expired 4 session_item ≡ true → (keep_ttl_of 4 (new_entry key []) session_item).ttl ≡ 0)
keep_ttl_of_deadline_example = keep_ttl_of_deadline 4 10 (new_entry key []) session_item refl

abbrev TxState : Type 0
TxState = memory.State

abbrev sentinel : Entry
sentinel = sentinel_entry key (7 ∷ []) 2 prefix

abbrev held : TxState
held = write empty key (ok (item_of sentinel))

write_sentinel_resolve_example :
    (resolve_prefix memory held key [] ≡ ok prefix)
    × ((item : Item) × (held key ≡ ok item) × ReadsBack item [] (7 ∷ []) 2 prefix)
write_sentinel_resolve_example =
    write_sentinel_resolve memory 0 empty held key [] (7 ∷ []) 2 prefix
      (unfold write_sentinel in refl) (omega arith) (omega arith) (λ e. cc)

abbrev with_bit : TxState
with_bit = write empty key (ok (item_of (new_entry key (0 ∷ 32 ∷ []))))

get_bit-set_bit_example :
    (get_bit memory empty key 10 ≡ ok 0)
    × (get_bit memory with_bit key 10 ≡ (if 10 == 10 then ok 1 else get_bit memory empty key 10))
get_bit-set_bit_example =
    get_bit-set_bit memory 0 empty with_bit key 10 1 0 10 (λ item e. cc) (omega arith)
      (unfold set_bit in refl)

abbrev overwritten : TxState
overwritten =
    write held key (ok (item_of (new_entry key (set_bit_in (item_of sentinel).value 7 1).0)))

set_bit_overwrites_example :
    (item : Item) × (overwritten key ≡ ok item)
    × (item.meta ≡ 0)
    × (item.value ≡ (set_bit_in (item_of sentinel).value 7 1).0)
set_bit_overwrites_example =
    set_bit_overwrites memory 0 held overwritten key 7 1 1 (item_of sentinel) refl
      (unfold set_bit sentinel_entry to_be_bytes in refl)

abbrev sources : Sources
sources = some (5 ∷ 6 ∷ []) ∷ none ∷ some (3 ∷ []) ∷ []

bit_op_in-combine_example :
    (get_or_zero (bit_op_in or_op sources 2) 0 ≡ combine_existing bit_or 0 sources 0)
    × (get_or_zero (bit_op_in xor_op sources 2) 0 ≡ combine_existing bit_xor 0 sources 0)
bit_op_in-combine_example =
    bit_op_in-combine sources 2 0 ((omega arith, (omega arith, tt)), (tt, ((omega arith, tt), tt)))
      (omega arith)

bit_count_in_units_example :
    bit_count_in (1 ∷ 3 ∷ 7 ∷ []) true (pos 1) (pos 2) false
    ≡ bit_count_in (1 ∷ 3 ∷ 7 ∷ []) true (pos 8) (pos 23) true
bit_count_in_units_example =
    bit_count_in_units (1 ∷ 3 ∷ 7 ∷ []) 1 2 (omega arith, (omega arith, (omega arith, tt)))
      (omega arith) (omega arith)
