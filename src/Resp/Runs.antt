-- ===== src/Resp/Runs.antt =====
-- Runs of the decoder and the encoder on inputs of the source's unit tests.
use invar.Prelude.{ℕ, ◌≡◌, refl, some, none, [], ◌∷◌, List}
use invar.Prelude.Int.{pos}
use invar.Resp.Value.{RespValue, integer, bulk_string, array, nil, cons}
use invar.Resp.Number.{parse_int, parse_digits, parse_digit, show_int}
use invar.Resp.Encoder.{encode_value}
use invar.Resp.Decoder.{RespDecoder, decode, item}

abbrev decoder : RespDecoder
decoder = record {
  max_bulk_len = 1000;
  max_array_len = 10;
  max_depth = 3;
  stack = [];
  pending_bulk_len = none;
}

abbrev get_command : List ℕ
get_command =
    b'*' ∷ b'2' ∷ 13 ∷ 10 ∷ b'$' ∷ b'1' ∷ 13 ∷ 10 ∷ 107 ∷ 13 ∷ 10 ∷ b':' ∷ b'4' ∷ 13 ∷ 10 ∷ []

abbrev get_value : RespValue
get_value = array (cons (bulk_string (some (107 ∷ []))) (cons (integer (pos 4)) nil))

decode_get : decode decoder get_command ≡ item get_value decoder []
unfolding decode parse_int parse_digits parse_digit
decode_get = refl

encode_get : encode_value get_value [] ≡ get_command
unfolding encode_value show_int
encode_get = refl
