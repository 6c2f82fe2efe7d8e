-- ===== src/Bitmap/Counts.antt =====
-- BITCOUNT by bytes and by bits.
use invar.Prelude.{
  ℕ, zero, suc, ◌+◌, ◌-◌, ◌*◌, ◌/◌, ◌%◌, ◌≤◌, ◌<◌, ◌≡◌, ◌∙◌, refl, sym, true, false, some, [], ◌∷◌,
  length, ltb, leb, ◌||◌, ◌==◌, ==_iff, All, Bytes, arith,
}
use invar.Prelude.Int.{pos}
use invar.Bitmap.{
  get_or_zero, mask, get_bit_in, bit_range, count_bits, count_ones, count_bytes, bit_count_in,
}
use invar.Bitmap.Bits.{IsByte, get_or_zero-IsByte, bit_of, get_bit_in_plain}
use invar.Prelude.Tables.{passes, passes_at}

count_bits_same :
    (k : ℕ) (bytes bytes' : Bytes) (p q : ℕ)
    → ((j : ℕ) → j < k → get_bit_in bytes (p + j) ≡ get_bit_in bytes' (q + j))
    → count_bits k bytes p ≡ count_bits k bytes' q
unfolding count_bits
count_bits_same zero bytes bytes' p q h = refl
count_bits_same (suc k) bytes bytes' p q h =
    let left : p + 0 ≡ p = omega arith in
    let right : q + 0 ≡ q = omega arith in
    let here : get_bit_in bytes p ≡ get_bit_in bytes' q =
      rw (sym left, sym right) (h 0 (omega arith)) in
    omega (
      arith,
      here,
      count_bits_same k bytes bytes' (p + 1) (q + 1)
          (λ j small. shifted j (h (suc j) (omega arith))),
    )
  where
    shifted :
        (j : ℕ)
        → get_bit_in bytes (p + suc j) ≡ get_bit_in bytes' (q + suc j)
        → get_bit_in bytes (p + 1 + j) ≡ get_bit_in bytes' (q + 1 + j)
    shifted j e =
        let left : p + 1 + j ≡ p + suc j = omega arith in
        let right : q + 1 + j ≡ q + suc j = omega arith in rw (left, right) e

count_bits_add :
    (a b : ℕ) (bytes : Bytes) (p : ℕ)
    → count_bits (a + b) bytes p ≡ count_bits a bytes p + count_bits b bytes (p + a)
unfolding count_bits
count_bits_add zero b bytes p =
    let left : 0 + b ≡ b = omega arith in
    let right : p + 0 ≡ p = omega arith in rw (left, right) (omega arith)
count_bits_add (suc a) b bytes p =
    let left : suc a + b ≡ suc (a + b) = omega arith in
    let right : p + suc a ≡ p + 1 + a = omega arith in
    rw (left, right) (omega (arith, count_bits_add a b bytes (p + 1)))

-- The tests of the eight bits of a byte find as many ones as its binary digits hold.
ones_table : passes (λ b. count_bits 8 (b ∷ []) 0 == count_ones b) 256 ≡ true
unfolding passes count_bits get_bit_in count_ones
ones_table = refl

count_bits-count_ones : (b : ℕ) → IsByte b → count_bits 8 (b ∷ []) 0 ≡ count_ones b
count_bits-count_ones b h =
    (==_iff (count_bits 8 (b ∷ []) 0) (count_ones b)).0
      (passes_at (λ b. count_bits 8 (b ∷ []) 0 == count_ones b) 256 b h ones_table)

count_byte :
    (bytes : Bytes) (i : ℕ)
    → All IsByte bytes
    → count_bits 8 bytes (8 * i) ≡ count_ones (get_or_zero bytes i)
count_byte bytes i h =
    count_bits_same 8 bytes (get_or_zero bytes i ∷ []) (8 * i) 0 (λ j small.
      get_bit_in_plain bytes (8 * i + j)
      ∙ same j small
      ∙ sym (get_bit_in_plain (get_or_zero bytes i ∷ []) (0 + j)))
    ∙ count_bits-count_ones (get_or_zero bytes i) (get_or_zero-IsByte bytes i h)
  where
    same :
        (j : ℕ)
        → j < 8
        → bit_of (get_or_zero bytes ((8 * i + j) / 8)) (mask (8 * i + j))
          ≡ bit_of (get_or_zero (get_or_zero bytes i ∷ []) ((0 + j) / 8)) (mask (0 + j))
    same j small =
        let a : (8 * i + j) / 8 ≡ i = omega arith in
        let b : (8 * i + j) % 8 ≡ j = omega arith in
        let c : (0 + j) / 8 ≡ 0 = omega arith in
        let d : (0 + j) % 8 ≡ j = omega arith in rw (a, b, c, d) refl

count_bytes-count_bits :
    (n : ℕ) (bytes : Bytes) (i : ℕ)
    → All IsByte bytes
    → count_bytes n bytes i ≡ count_bits (8 * n) bytes (8 * i)
unfolding count_bytes
count_bytes-count_bits zero bytes i h = unfold count_bits in refl
count_bytes-count_bits (suc n) bytes i h =
    let all : 8 * suc n ≡ 8 + 8 * n = omega arith in
    let next : 8 * i + 8 ≡ 8 * (i + 1) = omega arith in
    rw (all, count_bits_add 8 (8 * n) bytes (8 * i), next)
      (omega (arith, count_byte bytes i h, count_bytes-count_bits n bytes (i + 1) h))

-- BITCOUNT over a range of bytes within the string counts what it counts over the bits of the range.
-- The string holds bytes.
pub bit_count_in_units :
    (bytes : Bytes) (lo hi : ℕ)
    → All IsByte bytes
    → lo ≤ hi
    → hi < length bytes
    → bit_count_in bytes true (pos lo) (pos hi) false
      ≡ bit_count_in bytes true (pos (8 * lo)) (pos (8 * hi + 7)) true
bit_count_in_units bytes lo hi h order inside =
    unfold bit_count_in in
    rw
      (
        range_within lo hi (length bytes) order inside,
        range_within (8 * lo) (8 * hi + 7) (length bytes * 8) (omega arith) (omega arith),
        rounds,
      )
      (count_bytes-count_bits (hi + 1 - lo) bytes lo h)
  where
    range_within :
        (start end total : ℕ)
        → start ≤ end
        → end < total
        → bit_range (pos start) (pos end) total ≡ some (start, end)
    range_within start end total h k =
        let inner : leb total end ≡ false = ground arith in
        let some_left : (ltb end start || leb total start) ≡ false = ground arith in
        unfold bit_range in rw inner (rw some_left refl)

    rounds : 8 * hi + 7 + 1 - 8 * lo ≡ 8 * (hi + 1 - lo)
    rounds = omega arith
