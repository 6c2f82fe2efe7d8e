-- ===== src/Resp/Chunks.antt =====
-- Where the outcome depends on how the bytes of a line arrive.
use invar.Prelude.{ℕ, ◌+◌, ◌≤◌, ◌≡◌, refl, ap, ◌∙◌, none, some, List, [], ◌∷◌, ◌++◌, length, arith}
use invar.Resp.Value.{simple_string, line_too_long}
use invar.Resp.Decoder.{
  RespDecoder, item, failed, read_line, read_value, dispatch, deliver_value, deliver,
  after_delivery, proceed, decode,
}
use invar.Resp.Progress.{decode_unfold}
use invar.Resp.Lines.{HasNoCrlf, HasNoCrlf-cons, round_idle, decode_line}

-- A simple string whose text has the maximal length, or one byte less, is accepted when its line is
-- there whole; but when the bytes before the CRLF come first, the decoder fails on them.
pub decode_early_line :
    (d : RespDecoder) (s rest : List ℕ)
    → d.stack ≡ []
    → d.pending_bulk_len ≡ none
    → HasNoCrlf s
    → length s ≤ d.max_bulk_len
    → d.max_bulk_len ≤ length s + 1
    → (decode d (b'+' ∷ (s ++ 13 ∷ 10 ∷ rest)) ≡ item (simple_string s) d rest)
      × (decode d (b'+' ∷ s) ≡ failed line_too_long d (b'+' ∷ s))
decode_early_line d s rest empty no_bulk h fits near = (whole, early)
  where
    same : record d { stack = [] } ≡ d
    same = ground (arith, empty)

    whole : decode d (b'+' ∷ (s ++ 13 ∷ 10 ∷ rest)) ≡ item (simple_string s) d rest
    whole =
        decode_line d b'+' s rest no_bulk refl (λ e. omega arith) h fits
        ∙ ap (proceed decode) {y = item (simple_string s) d rest} (
            unfold dispatch deliver_value in
            ap (after_delivery d rest) {y = ([], some (simple_string s))}
              (ap (λ k. deliver k (simple_string s)) empty ∙ unfold deliver in refl)
            ∙ unfold after_delivery in ap (λ e. item (simple_string s) e rest) (same))

    early : decode d (b'+' ∷ s) ≡ failed line_too_long d (b'+' ∷ s)
    early =
        decode_unfold d _
        ∙ ap (proceed decode) {y = failed line_too_long d (b'+' ∷ s)} (
            round_idle d _ no_bulk
            ∙ unfold read_value read_line in
              ground (arith, HasNoCrlf-cons b'+' s (λ e. omega arith) h))
