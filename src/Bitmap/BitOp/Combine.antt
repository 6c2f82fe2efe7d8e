-- ===== src/Bitmap/BitOp/Combine.antt =====
-- What BITOP writes at each place.
use Prim.Native.Nat.{bit_or, bit_xor}
use invar.Prelude.{
  ℕ, zero, suc, ◌<◌, ◌≡◌, ◌∙◌, refl, sym, ap, Bool, true, All, ltb, ◌==◌, ==_iff, ◌&&◌, Option,
  none, some, List, [], ◌∷◌, length, Bytes, arith,
}
use invar.Prelude.Tables.{passes, passes_at}
use invar.Bitmap.{get_or_zero, zeros}
use invar.Bitmap.Bits.{IsByte, get_or_zero-IsByte, get_or_zero-zeros, length-zeros, zeros-IsByte}
use invar.Bitmap.BitOp.{or_op, xor_op, Sources, present, over_source, over_sources, bit_op_in}

-- A fold over the bytes of the sources at one place.
abbrev pub combine : (ℕ → ℕ → ℕ) → ℕ → List Bytes → ℕ → ℕ
combine f r [] j = r
combine f r (s ∷ sources) j = combine f (f r (get_or_zero s j)) sources j

-- An operation on bytes that keeps a byte when the other is missing.
pub record IsByteOp (f : ℕ → ℕ → ℕ) : Type 0 where
  pub right : (r : ℕ) → r < 256 → f r 0 ≡ r
  pub closed : (r b : ℕ) → r < 256 → b < 256 → f r b < 256

abbrev byte_op : (ℕ → ℕ → ℕ) → ℕ → ℕ → Bool
byte_op f r b = (f r 0 == r) && ltb (f r b) 256

or_table : passes (λ r. passes (byte_op bit_or r) 256) 256 ≡ true
unfolding passes
or_table = refl

xor_table : passes (λ r. passes (byte_op bit_xor r) 256) 256 ≡ true
unfolding passes
xor_table = refl

byte_op_from : (f : ℕ → ℕ → ℕ) → passes (λ r. passes (byte_op f r) 256) 256 ≡ true → IsByteOp f
byte_op_from f table = record {
  right = λ r h. ground (arith, at r 0 h (omega arith), ==_iff (f r 0) r);
  closed = λ r b h k. ground (arith, at r b h k);
}
  where
    at : (r b : ℕ) → r < 256 → b < 256 → byte_op f r b ≡ true
    at r b h k = passes_at _ 256 b k (passes_at _ 256 r h table)

pub over_source_at :
    (f : ℕ → ℕ → ℕ) (op : IsByteOp f) (result s : Bytes) (j : ℕ)
    → All IsByte result
    → j < length result
    → get_or_zero (over_source f result s) j ≡ f (get_or_zero result j) (get_or_zero s j)
unfolding over_source
over_source_at f op [] s j hr h = absurd (omega arith)
over_source_at f op (r ∷ result) [] j hr h =
    sym (op.right (get_or_zero (r ∷ result) j) (get_or_zero-IsByte (r ∷ result) j hr))
over_source_at f op (r ∷ result) (b ∷ s) zero hr h = refl
over_source_at f op (r ∷ result) (b ∷ s) (suc j) hr h =
    over_source_at f op result s j hr.1 (omega arith)

length-over_source :
    (f : ℕ → ℕ → ℕ) (result s : Bytes) → length (over_source f result s) ≡ length result
unfolding over_source
length-over_source f [] s = refl
length-over_source f (r ∷ result) [] = refl
length-over_source f (r ∷ result) (b ∷ s) = ap suc (length-over_source f result s)

over_source-IsByte :
    (f : ℕ → ℕ → ℕ) (op : IsByteOp f) (result s : Bytes)
    → All IsByte result
    → All IsByte s
    → All IsByte (over_source f result s)
unfolding over_source
over_source-IsByte f op [] s hr hs = hr
over_source-IsByte f op (r ∷ result) [] hr hs = hr
over_source-IsByte f op (r ∷ result) (b ∷ s) hr hs =
    (op.closed r b hr.0 hs.0, over_source-IsByte f op result s hr.1 hs.1)

over_sources_at :
    (f : ℕ → ℕ → ℕ) (op : IsByteOp f) (result : Bytes) (sources : List Bytes) (j : ℕ)
    → All IsByte result
    → All (All IsByte) sources
    → j < length result
    → get_or_zero (over_sources f result sources) j ≡ combine f (get_or_zero result j) sources j
unfolding over_sources
over_sources_at f op result [] j hr hs h = refl
over_sources_at f op result (s ∷ sources) j hr hs h =
    over_sources_at f op (over_source f result s) sources j
      (over_source-IsByte f op result s hr hs.0) hs.1 (omega (arith, length-over_source f result s))
    ∙ ap (λ r. combine f r sources j) (over_source_at f op result s j hr h)

abbrev pub first_byte : Option Bytes → ℕ → ℕ
first_byte none j = 0
first_byte (some s) j = get_or_zero s j

-- A source that exists holds bytes.
abbrev pub HoldsBytes : Option Bytes → Type 0
HoldsBytes none = Unit {0}
HoldsBytes (some s) = All IsByte s

-- The same fold, over sources of which some may be missing: these are passed over.
abbrev pub combine_existing : (ℕ → ℕ → ℕ) → ℕ → Sources → ℕ → ℕ
combine_existing f r [] j = r
combine_existing f r (none ∷ sources) j = combine_existing f r sources j
combine_existing f r (some s ∷ sources) j = combine_existing f (f r (get_or_zero s j)) sources j

present-IsByte : (sources : Sources) → All HoldsBytes sources → All (All IsByte) (present sources)
unfolding present
present-IsByte [] h = tt
present-IsByte (none ∷ sources) (u, h) = present-IsByte sources h
present-IsByte (some s ∷ sources) (here, h) = (here, present-IsByte sources h)

combine-present :
    (f : ℕ → ℕ → ℕ) (r : ℕ) (sources : Sources) (j : ℕ)
    → combine f r (present sources) j ≡ combine_existing f r sources j
unfolding present
combine-present f r [] j = refl
combine-present f r (none ∷ sources) j = combine-present f r sources j
combine-present f r (some s ∷ sources) j = combine-present f (f r (get_or_zero s j)) sources j

combined :
    (f : ℕ → ℕ → ℕ) (sources : Sources) (n j : ℕ)
    → IsByteOp f
    → All HoldsBytes sources
    → j < n
    → get_or_zero (over_sources f (zeros n) (present sources)) j ≡ combine_existing f 0 sources j
combined f sources n j op hs h =
    over_sources_at f op (zeros n) (present sources) j (zeros-IsByte n) (present-IsByte sources hs)
      (omega (arith, length-zeros n))
    ∙ ap (λ r. combine f r (present sources) j) (get_or_zero-zeros n j)
    ∙ combine-present f 0 sources j

-- BITOP OR and XOR combine, at each place of the result, the bytes of all sources that exist, those
-- behind the end of a source being zero. The sources hold bytes.
pub bit_op_in-combine :
    (sources : Sources) (n j : ℕ)
    → All HoldsBytes sources
    → j < n
    → (get_or_zero (bit_op_in or_op sources n) j ≡ combine_existing bit_or 0 sources j)
      × (get_or_zero (bit_op_in xor_op sources n) j ≡ combine_existing bit_xor 0 sources j)
bit_op_in-combine sources n j hs h =
    unfold bit_op_in in
    (
      combined bit_or sources n j (byte_op_from bit_or or_table) hs h,
      combined bit_xor sources n j (byte_op_from bit_xor xor_table) hs h,
    )
