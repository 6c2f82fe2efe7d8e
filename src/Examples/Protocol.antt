-- ===== src/Examples/Protocol.antt =====
-- The protocol of src/redis/resp.rs on concrete bytes.
use invar.Prelude.{ℕ, ◌≡◌, refl, some, none, List, [], ◌∷◌, ◌++◌, arith}
use invar.Prelude.Int.{pos, negsuc}
use invar.Resp.Value.{
  RespValue, simple_string, integer, bulk_string, array, nil, cons, line_too_long, out_of_range,
}
use invar.Resp.Number.{i64_max}
use invar.Resp.Encoder.{encode_value}
use invar.Resp.Decoder.{RespDecoder, decode, item, failed, find_crlf}
use invar.Resp.Progress.{HasEnded, decode-HasEnded}
use invar.Resp.Limits.{IsSound, KeepsLimits, state, decode-KeepsLimits}
use invar.Resp.Resume.{Continues, decode-Continues}
use invar.Resp.RoundTrip.{decode-encode_value, decode-encode_least}
use invar.Resp.Chunks.{decode_early_line}

abbrev decoder : RespDecoder
decoder = record {
  max_bulk_len = 20;
  max_array_len = 10;
  max_depth = 3;
  stack = [];
  pending_bulk_len = none;
}

abbrev get_command : List ℕ
get_command =
    b'*' ∷ b'2' ∷ 13 ∷ 10 ∷ b'$' ∷ b'1' ∷ 13 ∷ 10 ∷ 107 ∷ 13 ∷ 10 ∷ b':' ∷ b'4' ∷ 13 ∷ 10 ∷ []

abbrev get_value : RespValue
get_value = array (cons (bulk_string (some (107 ∷ []))) (cons (integer (pos 4)) nil))

abbrev twenty : List ℕ
twenty =
    97 ∷ 97 ∷ 97 ∷ 97 ∷ 97 ∷ 97 ∷ 97 ∷ 97 ∷ 97 ∷ 97 ∷ 97 ∷ 97 ∷ 97 ∷ 97 ∷ 97 ∷ 97 ∷ 97 ∷ 97 ∷ 97
    ∷ 97 ∷ []

decoder-IsSound : IsSound decoder
decoder-IsSound = record { shallow = omega arith; open_arrays = tt; pending = tt }

decode-HasEnded_example : HasEnded (decode decoder get_command)
decode-HasEnded_example = decode-HasEnded decoder get_command

decode-Continues_example :
    Continues get_command (decode decoder (get_command ++ get_command)) (decode decoder get_command)
decode-Continues_example = decode-Continues decoder get_command get_command

decode-encode_value_example :
    decode decoder (encode_value get_value [] ++ get_command) ≡ item get_value decoder get_command
decode-encode_value_example =
    decode-encode_value decoder get_value get_command refl refl (omega arith)
      (omega arith, omega arith, ((omega arith, omega arith), (omega arith, tt))) (omega arith)

decode-encode_least_example :
    decode decoder (encode_value (integer (negsuc i64_max)) [] ++ [])
    ≡ failed out_of_range decoder (encode_value (integer (negsuc i64_max)) [] ++ [])
decode-encode_least_example = decode-encode_least decoder [] refl (omega arith)

decode-KeepsLimits_example : KeepsLimits decoder (state (decode decoder get_command))
decode-KeepsLimits_example = decode-KeepsLimits decoder get_command decoder-IsSound

decode_early_line_example :
    (decode decoder (b'+' ∷ (twenty ++ 13 ∷ 10 ∷ [])) ≡ item (simple_string twenty) decoder [])
    × (decode decoder (b'+' ∷ twenty) ≡ failed line_too_long decoder (b'+' ∷ twenty))
decode_early_line_example =
    decode_early_line decoder twenty [] refl refl (unfold find_crlf in refl) (omega arith)
      (omega arith)
