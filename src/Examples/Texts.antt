-- ===== src/Examples/Texts.antt =====
-- String commands on the store in memory.
use invar.Prelude.{◌≡◌, refl, true, false, none, some, [], ◌∷◌, length, ok, err, Bytes, arith}
use invar.Prelude.Int.{ℤ, pos, ◌+ℤ◌}
use invar.Kv.{Item, Entry, set_keeping_ttl}
use invar.Resp.Number.{show_int}
use invar.Strings.{
  read_string, set_range, msetnx, increment, set_string, any, unwrap_on_none, parse_i64,
}
use invar.Strings.Ranges.{Overwrites, read_string-set_range}
use invar.Strings.Sums.{increment_exact}
use invar.Strings.Pairs.{Outcome, msetnx_all_or_none}
use invar.Examples.Memory.{Memory, memory, empty, write, item_of}

abbrev name : Bytes
name = b'k' ∷ []

abbrev text : Bytes → Entry
text value = record { key = name; value = value; meta = 0; ttl = 0 }

abbrev holding : Bytes → Memory
holding value = write empty name (ok (item_of (text value)))

abbrev replaced : Bytes → Bytes → Memory
replaced before after = write (holding before) name (ok (item_of (text after)))

read_string-set_range_example :
    (bytes : Bytes) × (read_string memory (replaced (b'a' ∷ []) (b'a' ∷ 0 ∷ b'x' ∷ [])) name
      ≡ ok (some bytes))
    × (length bytes ≡ 3)
    × Overwrites (b'a' ∷ []) 2 (b'x' ∷ []) bytes
read_string-set_range_example =
    read_string-set_range memory 0 (holding (b'a' ∷ []))
      (replaced (b'a' ∷ []) (b'a' ∷ 0 ∷ b'x' ∷ [])) name 2 (b'x' ∷ []) 3 (some (b'a' ∷ []))
      (unfold read_string in refl) (unfold set_range set_keeping_ttl in refl)

msetnx_all_or_none_example : Outcome memory empty (holding (b'v' ∷ [])) ((name, b'v' ∷ []) ∷ []) 1
msetnx_all_or_none_example =
    msetnx_all_or_none memory empty (holding (b'v' ∷ [])) ((name, b'v' ∷ []) ∷ []) 1
      (unfold msetnx in refl)

increment_exact_example :
    (◌≡◌ {A = ℤ} (pos 42) (pos 41 +ℤ pos 1))
    × (item : Item) × (replaced (b'4' ∷ b'1' ∷ []) (b'4' ∷ b'2' ∷ []) name ≡ ok item)
    × (item.value ≡ show_int (pos 41 +ℤ pos 1))
    × (item.meta ≡ 0)
increment_exact_example =
    increment_exact memory 0 (holding (b'4' ∷ b'1' ∷ []))
      (replaced (b'4' ∷ b'1' ∷ []) (b'4' ∷ b'2' ∷ [])) name (pos 1) (pos 41) (pos 42)
      (item_of (text (b'4' ∷ b'1' ∷ []))) refl (unfold parse_i64 in refl) (omega arith)
      (unfold ◌+ℤ◌ in omega arith) (unfold increment show_int in refl)

-- SET with KEEPTTL on a key that is not there.
keepttl_panics : set_string memory 0 empty name (b'v' ∷ []) none any false true ≡ err unwrap_on_none
unfolding set_string
keepttl_panics = refl
