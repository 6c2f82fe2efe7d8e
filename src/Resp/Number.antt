-- ===== src/Resp/Number.antt =====
-- src/redis/resp.rs: `parse_int`, beside the decimal text that `to_string` of std gives.
pub mod Laws
use invar.Prelude.{
  ℕ, zero, suc, ◌+◌, ◌-◌, ◌*◌, ◌/◌, ◌%◌, ◌^◌, Bool, List, [], ◌∷◌, ◌++◌, ltb, leb, ◌==◌, ◌&&◌,
  if◌then◌else◌, Result, ok, err, ◌>>=◌,
}
use invar.Prelude.Int.{ℤ, pos, negsuc}
use invar.Resp.Value.{RespError, no_digits, unexpected_byte, out_of_range}

abbrev pub i64_max : ℕ
i64_max = 2 ^ 63 - 1

-- `u8::is_ascii_digit`
abbrev pub is_digit : ℕ → Bool
is_digit b = leb 48 b && leb b 57

-- One round of the loop: `checked_mul(10)`, then `checked_add`, on an `i64` that is not negative.
unfoldable pub parse_digit : ℕ → ℕ → Result RespError ℕ
parse_digit value b =
    if is_digit b
    then (if ltb i64_max (value * 10)
        then err out_of_range
        else if ltb i64_max (value * 10 + (b - 48))
        then err out_of_range
        else ok (value * 10 + (b - 48)))
    else err (unexpected_byte b)

unfoldable pub parse_digits : ℕ → List ℕ → Result RespError ℕ
parse_digits value [] = ok value
parse_digits value (b ∷ bs) = do v ← parse_digit value b; parse_digits v bs

-- `-value`
abbrev pub negate : ℕ → ℤ
negate zero = pos 0
negate (suc n) = negsuc n

unsigned : List ℕ → Result RespError ℕ
unsigned [] = err no_digits
unsigned (b ∷ bs) = parse_digits 0 (b ∷ bs)

unfoldable pub parse_int : List ℕ → Result RespError ℤ
unfolding unsigned
parse_int [] = err no_digits
parse_int (b ∷ bs) =
    if b == b'-'
    then (do value ← unsigned bs; ok (negate value))
    else do value ← unsigned (b ∷ bs); ok (pos value)

-- `to_string` of an unsigned integer, which std documents as its decimal digits.
unfoldable pub decimal_loop : ℕ → ℕ → List ℕ
decimal_loop zero n = []
decimal_loop (suc f) n =
    let front = decimal_loop f (n / 10) in
    if ltb n 10 then (48 + n) ∷ [] else front ++ (48 + n % 10) ∷ []

unfoldable pub decimal : ℕ → List ℕ
unfolding decimal_loop
decimal n = decimal_loop (n + 1) n

-- `to_string` of a signed integer.
unfoldable pub show_int : ℤ → List ℕ
unfolding decimal
show_int (pos n) = decimal n
show_int (negsuc n) = b'-' ∷ decimal (suc n)
