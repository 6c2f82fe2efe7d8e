-- ===== src/Resp/Value.antt =====
-- src/redis/resp.rs: the values of the protocol and the errors of the decoder.
use invar.Prelude.{ℕ, suc, Option, List}
use invar.Prelude.Int.{ℤ}

-- A vector of values inside a value is a type of the block. `Array(None)` is `null_array`.
mutual
  pub data RespValue : Type 0 where
    simple_string : List ℕ → RespValue
    error : List ℕ → RespValue
    integer : ℤ → RespValue
    bulk_string : Option (List ℕ) → RespValue
    array : RespValues → RespValue
    null_array : RespValue

  pub data RespValues : Type 0 where
    nil : RespValues
    cons : RespValue → RespValues → RespValues

abbrev pub count : RespValues → ℕ
count nil = 0
count (cons v vs) = suc (count vs)

-- `Vec::push`
abbrev pub push : RespValues → RespValue → RespValues
push nil v = cons v nil
push (cons w ws) v = cons w (push ws v)

abbrev pub append : RespValues → RespValues → RespValues
append nil ws = ws
append (cons v vs) ws = cons v (append vs ws)

-- The messages of `RespError::Protocol`, with what they show.
pub data RespError : Type 0 where
  payload_without_crlf : RespError
  invalid_bulk_length : ℤ → RespError
  bulk_too_long : ℕ → ℕ → RespError
  invalid_array_length : ℤ → RespError
  array_too_long : ℕ → ℕ → RespError
  depth_exceeded : RespError
  unexpected_type_byte : ℕ → RespError
  line_too_long : RespError
  no_digits : RespError
  unexpected_byte : ℕ → RespError
  out_of_range : RespError
