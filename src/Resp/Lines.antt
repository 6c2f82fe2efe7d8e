-- ===== src/Resp/Lines.antt =====
-- One line of the protocol, as the decoder reads it.
use invar.Prelude.{
  ℕ, suc, ◌+◌, ◌≤◌, ◌≡◌, ◌≢◌, refl, ap, ◌∙◌, none, some, List, [], ◌∷◌, ◌++◌, length, drop,
  length-append, take-length, drop-length, append_assoc, ok, arith, true, All,
}
use invar.Prelude.Int.{ℤ, pos, negsuc}
use invar.Resp.Number.{decimal, show_int}
use invar.Resp.Number.Laws.{IsDigit, decimal-IsDigit}
use invar.Resp.Encoder.{crlf}
use invar.Resp.Decoder.{
  RespDecoder, find_crlf, read_line, use_line, dispatch, read_value, round, start_round,
  is_type_byte, proceed, decode,
}
use invar.Resp.Progress.{decode_unfold}

-- A text that can stand on a line.
abbrev pub HasNoCrlf : List ℕ → Type 0
HasNoCrlf s = find_crlf s ≡ none

find_crlf-line : (s rest : List ℕ) → HasNoCrlf s → find_crlf (s ++ 13 ∷ 10 ∷ rest) ≡ some (length s)
unfolding find_crlf
find_crlf-line [] rest h = refl
find_crlf-line (a ∷ []) rest h = ground arith
find_crlf-line (a ∷ b ∷ s) rest h = ground (arith, find_crlf-line (b ∷ s) rest)

-- A type byte is no carriage return.
pub HasNoCrlf-cons : (t : ℕ) (s : List ℕ) → t ≢ 13 → HasNoCrlf s → HasNoCrlf (t ∷ s)
unfolding find_crlf
HasNoCrlf-cons t [] n h = refl
HasNoCrlf-cons t (b ∷ s) n h = ground arith

HasNoCrlf-digits : (s : List ℕ) → All IsDigit s → HasNoCrlf s
HasNoCrlf-digits [] h = unfold find_crlf in refl
HasNoCrlf-digits (b ∷ s) h = HasNoCrlf-cons b s (λ e. omega arith) (HasNoCrlf-digits s h.1)

pub HasNoCrlf-decimal : (n : ℕ) → HasNoCrlf (decimal n)
HasNoCrlf-decimal n = HasNoCrlf-digits (decimal n) (decimal-IsDigit n)

pub HasNoCrlf-show_int : (z : ℤ) → HasNoCrlf (show_int z)
HasNoCrlf-show_int (pos n) = unfold show_int in HasNoCrlf-decimal n
HasNoCrlf-show_int (negsuc n) =
    unfold show_int in HasNoCrlf-cons b'-' _ (λ e. omega arith) (HasNoCrlf-decimal (suc n))

pub read_line-line :
    (t max_len : ℕ) (s rest : List ℕ)
    → t ≢ 13
    → HasNoCrlf s
    → length s ≤ max_len
    → read_line (t ∷ (s ++ 13 ∷ 10 ∷ rest)) max_len ≡ ok (some (length s, length s + 3))
read_line-line t max_len s rest n h fits =
    unfold read_line in ground (arith, find_crlf-line (t ∷ s) rest (HasNoCrlf-cons t s n h))

drop_line : (t : ℕ) (s rest : List ℕ) → drop (length s + 3) (t ∷ (s ++ 13 ∷ 10 ∷ rest)) ≡ rest
drop_line t s rest =
    let size : length s + 3 ≡ length (t ∷ (s ++ crlf)) = omega (arith, length-append {0} s crlf) in
    rw (size, ← append_assoc s crlf rest) (drop-length (t ∷ (s ++ crlf)) rest)

pub round_idle :
    (d : RespDecoder) (src : List ℕ) → d.pending_bulk_len ≡ none → round d src ≡ read_value d src
round_idle d src h = unfold round in ap (start_round d src) h

-- A whole line is dispatched with its text and with the bytes behind it.
pub decode_line :
    (d : RespDecoder) (t : ℕ) (s rest : List ℕ)
    → d.pending_bulk_len ≡ none
    → is_type_byte t ≡ true
    → t ≢ 13
    → HasNoCrlf s
    → length s ≤ d.max_bulk_len
    → decode d (t ∷ (s ++ 13 ∷ 10 ∷ rest))
      ≡ proceed decode (dispatch d (t ∷ (s ++ 13 ∷ 10 ∷ rest)) t s rest)
decode_line d t s rest idle type n h fits =
    decode_unfold d _
    ∙ ap (proceed decode) (
        round_idle d _ idle
        ∙ unfold read_value in
          rw (type, read_line-line t d.max_bulk_len s rest n h fits)
            (unfold use_line in rw (take-length, drop_line)))
