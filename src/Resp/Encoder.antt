-- ===== src/Resp/Encoder.antt =====
-- src/redis/resp.rs: `encode_value`. It appends to `dst`, which comes last here and stays in front.
use invar.Prelude.{ℕ, none, some, List, [], ◌∷◌, ◌++◌, length}
use invar.Resp.Value.{
  RespValue, RespValues, simple_string, error, integer, bulk_string, array, null_array, nil, cons,
  count,
}
use invar.Resp.Number.{decimal, show_int}

abbrev pub crlf : List ℕ
crlf = 13 ∷ 10 ∷ []

-- A type byte, a text and the end of the line, appended one after the other.
abbrev pub put_line : ℕ → List ℕ → List ℕ → List ℕ
put_line t text dst = ((dst ++ t ∷ []) ++ text) ++ crlf

unfoldable mutual
  pub encode_value : RespValue → List ℕ → List ℕ
  encode_value (simple_string s) dst = put_line b'+' s dst
  encode_value (error e) dst = put_line b'-' e dst
  encode_value (integer n) dst = put_line b':' (show_int n) dst
  encode_value (bulk_string (some b)) dst = (put_line b'$' (decimal (length b)) dst ++ b) ++ crlf
  encode_value (bulk_string none) dst = dst ++ b'$' ∷ b'-' ∷ b'1' ∷ crlf
  encode_value (array items) dst = encode_values items (put_line b'*' (decimal (count items)) dst)
  encode_value null_array dst = dst ++ b'*' ∷ b'-' ∷ b'1' ∷ crlf

  pub encode_values : RespValues → List ℕ → List ℕ
  encode_values nil dst = dst
  encode_values (cons v vs) dst = encode_values vs (encode_value v dst)
