-- ===== src/Resp/Number/Laws.antt =====
-- `parse_int` reads back what `to_string` writes, on every `i64` but the least one.
use native.Mathlib.Numerals.{add-one}
use invar.Prelude.{
  ℕ, zero, suc, ◌+◌, ◌*◌, ◌/◌, ◌%◌, ◌^◌, ◌≤◌, ◌<◌, ◌≡◌, refl, ap, ◌∙◌, List, [], ◌∷◌, ◌++◌, ltb,
  Result, ok, err, ◌>>=◌, arith, length, length-append, All, Bool-cases, inl, inr, Result-cases,
}
use invar.Prelude.Int.{ℤ, pos, negsuc}
use invar.Resp.Value.{RespError, out_of_range}
use invar.Resp.Number.{
  i64_max, parse_digit, parse_digits, parse_int, unsigned, negate, decimal_loop, decimal, show_int,
}

abbrev pub IsDigit : ℕ → Type 0
IsDigit b = (48 ≤ b) × (b ≤ 57)

parse_digits-append :
    (xs ys : List ℕ) (value : ℕ)
    → parse_digits value (xs ++ ys) ≡ (parse_digits value xs >>= λ v. parse_digits v ys)
unfolding parse_digits
parse_digits-append [] ys value = refl
parse_digits-append (x ∷ xs) ys value = elim (Result-cases (parse_digit value x)) [
  | inl (e, p) ↦ rw p
  | inr (v, p) ↦ rw p (parse_digits-append xs ys v)
]

join-IsDigit :
    (front back : List ℕ) → All IsDigit back → All IsDigit front → All IsDigit (front ++ back)
join-IsDigit [] back tail head = tail
join-IsDigit (d ∷ front) back tail (first, head) = (first, join-IsDigit front back tail head)

decimal_loop-IsDigit : (f n : ℕ) → All IsDigit (decimal_loop f n)
decimal_loop-IsDigit zero n = unfold decimal_loop in tt
decimal_loop-IsDigit (suc f) n = wrap (decimal_loop-IsDigit f (n / 10))
  where
    wrap : All IsDigit (decimal_loop f (n / 10)) → All IsDigit (decimal_loop (suc f) n)
    wrap ih =
        unfold decimal_loop in
        elim (Bool-cases (ltb n 10)) [
          | inl e ↦ rw e (ground arith)
          | inr e ↦ rw e (join-IsDigit _ _ (omega arith) ih)
        ]

parse_digit_ok :
    (value c : ℕ)
    → c < 10
    → value * 10 + c ≤ i64_max
    → parse_digit value (48 + c) ≡ ok (value * 10 + c)
unfolding parse_digit
parse_digit_ok value c h k = ground arith

-- The digits of a number are read back, if the fuel that wrote them was enough.
parse_digits-decimal_loop :
    (f n : ℕ) → n < f → n ≤ i64_max → parse_digits 0 (decimal_loop f n) ≡ ok n
parse_digits-decimal_loop zero n h k = absurd (omega arith)
parse_digits-decimal_loop (suc f) n h k =
    wrap (λ lt. parse_digits-decimal_loop f (n / 10) lt (omega arith))
  where
    wrap :
        (n / 10 < f → parse_digits 0 (decimal_loop f (n / 10)) ≡ ok (n / 10))
        → parse_digits 0 (decimal_loop (suc f) n) ≡ ok n
    wrap ih =
        unfold decimal_loop in
        elim (Bool-cases (ltb n 10)) [
          | inl e ↦ rw e (unfold parse_digits in ground (arith, parse_digit_ok 0 n))
          | inr e ↦
              rw (e, parse_digits-append, ih (ground arith))
                (unfold parse_digits in
                  rw (parse_digit_ok (n / 10) (n % 10) (omega arith) (omega arith))
                    (ap ok (omega arith)))
        ]

length-decimal_loop : (k f n : ℕ) → n < 10 ^ suc k → length (decimal_loop f n) ≤ suc k
length-decimal_loop k zero n h = unfold decimal_loop in omega arith
length-decimal_loop zero (suc f) n h = unfold decimal_loop in ground arith
length-decimal_loop (suc k) (suc f) n h = wrap (length-decimal_loop k f (n / 10) (omega arith))
  where
    wrap : length (decimal_loop f (n / 10)) ≤ suc k → length (decimal_loop (suc f) n) ≤ suc (suc k)
    wrap ih =
        unfold decimal_loop in
        elim (Bool-cases (ltb n 10)) [
          | inl e ↦ rw e (omega arith)
          | inr e ↦ rw (e, length-append) (omega arith)
        ]

pub parse_digits-decimal : (n : ℕ) → n ≤ i64_max → parse_digits 0 (decimal n) ≡ ok n
parse_digits-decimal n h = unfold decimal in parse_digits-decimal_loop (n + 1) n (omega arith) h

pub decimal-IsDigit : (n : ℕ) → All IsDigit (decimal n)
decimal-IsDigit n = unfold decimal in decimal_loop-IsDigit (n + 1) n

pub length-decimal : (n : ℕ) → n ≤ 2 ^ 63 → length (decimal n) ≤ 19
length-decimal n h = unfold decimal in length-decimal_loop 18 (n + 1) n (omega arith)

length-decimal_pos : (n : ℕ) → 0 < length (decimal n)
length-decimal_pos n =
    unfold decimal in
    rw (add-one n) (
      unfold decimal_loop in
      elim (Bool-cases (ltb n 10)) [
        | inl e ↦ rw e (omega arith)
        | inr e ↦ rw (e, length-append) (omega arith)
      ])

unsigned_nonempty : (bs : List ℕ) → 0 < length bs → unsigned bs ≡ parse_digits 0 bs
unfolding unsigned
unsigned_nonempty [] h = absurd (omega arith)
unsigned_nonempty (b ∷ bs) h = refl

parse_int_digits :
    (bs : List ℕ) (n : ℕ)
    → 0 < length bs
    → All IsDigit bs
    → parse_digits 0 bs ≡ ok n
    → parse_int bs ≡ ok (pos n)
parse_int_digits [] n h d e = absurd (omega arith)
parse_int_digits (b ∷ bs) n h d e = unfold parse_int in ground (arith, e)

parse_int_negative :
    (bs : List ℕ) (r : Result RespError ℕ)
    → unsigned bs ≡ r
    → parse_int (b'-' ∷ bs) ≡ (r >>= λ v. ok (negate v))
unfolding parse_int
parse_int_negative bs r e = rw e

-- The integers that a reply can carry over: an `i64` that is not the least one.
abbrev pub IsReadable : ℤ → Type 0
IsReadable (pos n) = n ≤ i64_max
IsReadable (negsuc n) = suc n ≤ i64_max

pub parse_int-decimal : (n : ℕ) → n ≤ i64_max → parse_int (decimal n) ≡ ok (pos n)
parse_int-decimal n h =
    parse_int_digits (decimal n) n (length-decimal_pos n) (decimal-IsDigit n)
      (parse_digits-decimal n h)

-- `parse_int` reads back the decimal text of every `i64` but the least one.
pub parse_int-show_int : (z : ℤ) → IsReadable z → parse_int (show_int z) ≡ ok z
parse_int-show_int (pos n) h = unfold show_int in parse_int-decimal n h
parse_int-show_int (negsuc n) h =
    unfold show_int in
    parse_int_negative (decimal (suc n)) (ok (suc n))
      (unsigned_nonempty _ (length-decimal_pos (suc n)) ∙ parse_digits-decimal (suc n) h)

pub length-show_int : (z : ℤ) → IsReadable z → length (show_int z) ≤ 20
length-show_int (pos n) h = unfold show_int in omega (arith, length-decimal n)
length-show_int (negsuc n) h = unfold show_int in omega (arith, length-decimal (suc n))

-- The least `i64`, which `to_string` writes and `parse_int` refuses: it checks the range before it
-- applies the sign.
pub parse_int_least : parse_int (show_int (negsuc i64_max)) ≡ err out_of_range
unfolding parse_int parse_digits parse_digit show_int
parse_int_least = refl

pub length-show_int_least : length (show_int (negsuc i64_max)) ≤ 20
length-show_int_least = unfold show_int in omega (arith, length-decimal (suc i64_max))
