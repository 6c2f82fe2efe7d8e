-- ===== src/Bitmap/Bits.antt =====
-- A bit that was set is read back, and no other bit changes.
use Prim.Native.Nat.{bit_and}
use invar.Prelude.{
  ℕ, zero, suc, ◌+◌, ◌-◌, ◌/◌, ◌%◌, ◌^◌, ◌≤◌, ◌<◌, ◌≡◌, ◌∙◌, refl, sym, ap, Bool, true, false, [],
  ◌∷◌, ◌++◌, length, length-append, ltb, leb, ◌==◌, ==_iff, ◌&&◌, if◌then◌else◌, Bytes, All, arith,
  Bool-cases, inl, inr,
}
use invar.Prelude.Tables.{passes, passes_at}
use invar.Bitmap.{get_or_zero, put_byte, zeros, mask, extend_to, change_bit, set_bit_in, get_bit_in}

abbrev pub IsByte : ℕ → Type 0
IsByte b = b < 256

-- Bit `k` of a byte, counted from its lowest.
abbrev pub bit_of : ℕ → ℕ → ℕ
bit_of b m = if bit_and b m == 0 then 0 else 1

abbrev change_holds : ℕ → ℕ → ℕ → ℕ → Bool
change_holds value k j b =
    (bit_of (change_bit b (2 ^ k) value) (2 ^ j) == (if k == j then value else bit_of b (2 ^ j)))
    && ltb (change_bit b (2 ^ k) value) 256
    && (bit_and b (2 ^ k) / 2 ^ k == bit_of b (2 ^ k))

change_table :
    passes (λ v. passes (λ k. passes (λ j. passes (change_holds v k j) 256) 8) 8) 2 ≡ true
unfolding passes
change_table = refl

change_bit_lem : (v k j b : ℕ) → v < 2 → k < 8 → j < 8 → b < 256 → change_holds v k j b ≡ true
change_bit_lem v k j b hv hk hj hb =
    passes_at _ 256 b hb (passes_at _ 8 j hj (passes_at _ 8 k hk (passes_at _ 2 v hv change_table)))

pub length-zeros : (n : ℕ) → length (zeros n) ≡ n
length-zeros zero = refl
length-zeros (suc n) = ap suc (length-zeros n)

pub get_or_zero-zeros : (n i : ℕ) → get_or_zero (zeros n) i ≡ 0
get_or_zero-zeros zero i = refl
get_or_zero-zeros (suc n) zero = refl
get_or_zero-zeros (suc n) (suc i) = get_or_zero-zeros n i

get_or_zero-append_zeros :
    (bytes : Bytes) (n i : ℕ) → get_or_zero (bytes ++ zeros n) i ≡ get_or_zero bytes i
get_or_zero-append_zeros [] n i = get_or_zero-zeros n i
get_or_zero-append_zeros (b ∷ bytes) n zero = refl
get_or_zero-append_zeros (b ∷ bytes) n (suc i) = get_or_zero-append_zeros bytes n i

get_or_zero-extend_to :
    (bytes : Bytes) (n i : ℕ) → get_or_zero (extend_to bytes n) i ≡ get_or_zero bytes i
get_or_zero-extend_to bytes n i =
    unfold extend_to in ground (arith, get_or_zero-append_zeros bytes (n + 1 - length bytes) i)

length-extend_to : (bytes : Bytes) (n : ℕ) → n < length (extend_to bytes n)
length-extend_to bytes n =
    unfold extend_to in
    ground (
      arith,
      length-append {0} bytes (zeros (n + 1 - length bytes)),
      length-zeros (n + 1 - length bytes),
    )

get_or_zero-put_byte :
    (bytes : Bytes) (i j v : ℕ)
    → i < length bytes
    → get_or_zero (put_byte bytes i v) j ≡ (if i == j then v else get_or_zero bytes j)
get_or_zero-put_byte [] i j v h = absurd (omega arith)
get_or_zero-put_byte (b ∷ bytes) zero zero v h = refl
get_or_zero-put_byte (b ∷ bytes) zero (suc j) v h = ground arith
get_or_zero-put_byte (b ∷ bytes) (suc i) zero v h = ground arith
get_or_zero-put_byte (b ∷ bytes) (suc i) (suc j) v h =
    get_or_zero-put_byte bytes i j v (omega arith) ∙ ground arith

get_or_zero_past : (bytes : Bytes) (i : ℕ) → length bytes ≤ i → get_or_zero bytes i ≡ 0
get_or_zero_past [] i h = refl
get_or_zero_past (b ∷ bytes) zero h = absurd (omega arith)
get_or_zero_past (b ∷ bytes) (suc i) h = get_or_zero_past bytes i (omega arith)

pub get_or_zero-IsByte : (bytes : Bytes) (i : ℕ) → All IsByte bytes → IsByte (get_or_zero bytes i)
get_or_zero-IsByte [] i h = omega arith
get_or_zero-IsByte (b ∷ bytes) zero h = h.0
get_or_zero-IsByte (b ∷ bytes) (suc i) h = get_or_zero-IsByte bytes i h.1

zero_table : passes (λ k. bit_of 0 (2 ^ k) == 0) 8 ≡ true
unfolding passes
zero_table = refl

-- Past the end the bits read as zero, like those of a zero byte.
pub get_bit_in_plain :
    (bytes : Bytes) (p : ℕ) → get_bit_in bytes p ≡ bit_of (get_or_zero bytes (p / 8)) (mask p)
get_bit_in_plain bytes p = elim (Bool-cases (leb (length bytes) (p / 8))) [
  | inl e ↦
      rw (get_or_zero_past bytes (p / 8) (ground (arith, e)))
        (unfold get_bit_in in rw e (sym none_set))
  | inr e ↦ unfold get_bit_in in rw e
]
  where
    none_set : bit_of 0 (mask p) ≡ 0
    none_set = (==_iff (bit_of 0 (mask p)) 0).0 (passes_at _ 8 (7 - p % 8) (omega arith) zero_table)

pub get_bit_in-zeros : (n p : ℕ) → get_bit_in (zeros n) p ≡ 0
get_bit_in-zeros n p =
    get_bit_in_plain (zeros n) p
    ∙ rw (get_or_zero-zeros n (p / 8))
        ((==_iff (bit_of 0 (mask p)) 0).0 (passes_at _ 8 (7 - p % 8) (omega arith) zero_table))

pub zeros-IsByte : (n : ℕ) → All IsByte (zeros n)
zeros-IsByte zero = ground arith
zeros-IsByte (suc n) = (omega arith, zeros-IsByte n)

changed_bit :
    (v k j b : ℕ)
    → v < 2
    → k < 8
    → j < 8
    → b < 256
    → (bit_of (change_bit b (2 ^ k) v) (2 ^ j) ≡ (if k == j then v else bit_of b (2 ^ j)))
      × (bit_and b (2 ^ k) / 2 ^ k ≡ bit_of b (2 ^ k))
changed_bit v k j b hv hk hj hb = ground (
  arith,
  change_bit_lem v k j b hv hk hj hb,
  ==_iff (bit_of (change_bit b (2 ^ k) v) (2 ^ j)) (if k == j then v else bit_of b (2 ^ j)),
  ==_iff (bit_and b (2 ^ k) / 2 ^ k) (bit_of b (2 ^ k)),
)

same_bit : (o p : ℕ) → (o / 8 == p / 8) ≡ true → (7 - o % 8 == 7 - p % 8) ≡ (o == p)
same_bit o p e = ground arith

other_byte : (o p : ℕ) → (o / 8 == p / 8) ≡ false → (o == p) ≡ false
other_byte o p e = ground arith

-- SETBIT on the bytes of a string: the bit reads as the value that was set, every other bit reads as
-- before, also those behind the old end, and the answer is the bit's previous value.
pub get_bit_in-set_bit_in :
    (bytes : Bytes) (offset v p : ℕ)
    → All IsByte bytes
    → v < 2
    → (get_bit_in (set_bit_in bytes offset v).0 p ≡ (if offset == p then v else get_bit_in bytes p))
      × ((set_bit_in bytes offset v).1 ≡ get_bit_in bytes offset)
get_bit_in-set_bit_in bytes offset v p h hv =
    unfold set_bit_in in
    (
      get_bit_in_plain (put_byte longer i byte') p ∙ elim (Bool-cases (i == p / 8)) [
        | inl e ↦
            rw (get_or_zero-put_byte longer i (p / 8) byte' (length-extend_to bytes i), e)
              (changed.0
                ∙ rw (same_bit offset p e, get_or_zero-extend_to bytes i i)
                    (ap (λ b. if offset == p then v else bit_of b (mask p))
                        (ap (get_or_zero bytes) ((==_iff i (p / 8)).0 e))
                      ∙ ap (λ b. if offset == p then v else b) (sym (get_bit_in_plain bytes p))))
        | inr e ↦
            rw
              (
                get_or_zero-put_byte longer i (p / 8) byte' (length-extend_to bytes i),
                e,
                get_or_zero-extend_to bytes i (p / 8),
                other_byte offset p e,
              )
              (sym (get_bit_in_plain bytes p))
      ],
      changed.1 ∙ rw (get_or_zero-extend_to bytes i i) (sym (get_bit_in_plain bytes offset)),
    )
  where
    i : ℕ
    i = offset / 8

    longer : Bytes
    longer = extend_to bytes i

    byte' : ℕ
    byte' = change_bit (get_or_zero longer i) (mask offset) v

    changed :
        (bit_of byte' (mask p)
          ≡ (if 7 - offset % 8 == 7 - p % 8 then v else bit_of (get_or_zero longer i) (mask p)))
        × (bit_and (get_or_zero longer i) (mask offset) / mask offset
            ≡ bit_of (get_or_zero longer i) (mask offset))
    changed =
        changed_bit v (7 - offset % 8) (7 - p % 8) (get_or_zero longer i) hv (omega arith)
          (omega arith) (rw (get_or_zero-extend_to bytes i i) (get_or_zero-IsByte bytes i h))
