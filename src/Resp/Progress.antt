-- ===== src/Resp/Progress.antt =====
-- Each round of the loop takes a byte at least, so `decode` ends, and it satisfies the equations of
-- a loop without fuel.
use invar.Prelude.{
  ◌&&◌, ◌==◌, ℕ, zero, suc, ◌+◌, ◌≤◌, ◌<◌, ◌≡◌, refl, ◌∙◌, Option, none, some, List, [], ◌∷◌,
  length, take, drop, length-drop, Result, ok, err, arith, Bool-cases, inl, inr, ltb,
}
use invar.Prelude.Int.{ℤ, pos, negsuc}
use invar.Resp.Value.{RespValue, RespError, integer}
use invar.Resp.Number.{parse_int}
use invar.Resp.Decoder.{
  RespDecoder, Round, item, need_more, failed, again, deliver_value, read_payload, read_bulk_header,
  read_array_header, read_line, dispatch, read_number, read_value, start_round, use_line,
  finish_payload, is_type_byte, round, decode_loop, proceed, decode,
}

-- What a round leaves of the input.
abbrev pub left_over : Round → List ℕ
left_over (item v d src) = src
left_over (need_more d src) = src
left_over (failed e d src) = src
left_over (again d src) = src

abbrev pub Spends : List ℕ → Round → Type 0
Spends src (again d rest) = length rest < length src
Spends src _ = Unit

Spends-left_over : (src : List ℕ) (r : Round) → length (left_over r) < length src → Spends src r
Spends-left_over src (again d rest) h = h
Spends-left_over src (item v d rest) h = tt
Spends-left_over src (need_more d rest) h = tt
Spends-left_over src (failed e d rest) h = tt

pub left_over-deliver_value :
    (d : RespDecoder) (src : List ℕ) (v : RespValue) → left_over (deliver_value d src v) ≡ src
unfolding deliver_value
left_over-deliver_value d src v = ground arith

pub left_over-read_bulk_header :
    (d : RespDecoder) (src : List ℕ) (n : ℤ) → left_over (read_bulk_header d src n) ≡ src
unfolding read_bulk_header
left_over-read_bulk_header d src (negsuc zero) = left_over-deliver_value d src _
left_over-read_bulk_header d src (negsuc (suc n)) = refl
left_over-read_bulk_header d src (pos n) = ground arith

pub left_over-read_array_header :
    (d : RespDecoder) (src : List ℕ) (n : ℤ) → left_over (read_array_header d src n) ≡ src
unfolding read_array_header
left_over-read_array_header d src (negsuc zero) = left_over-deliver_value d src _
left_over-read_array_header d src (negsuc (suc n)) = refl
left_over-read_array_header d src (pos n) = ground arith

read_number-Spends :
    (d : RespDecoder) (src : List ℕ) (t : ℕ) (rest : List ℕ) (r : Result RespError ℤ)
    → length rest < length src
    → Spends src (read_number d src t rest r)
read_number-Spends d src t rest (err e) h = unfold read_number in tt
read_number-Spends d src t rest (ok n) h = Spends-left_over src _ (
    unfold read_number in
    ground (
      arith,
      left_over-deliver_value d rest (integer n),
      left_over-read_bulk_header d rest n,
      left_over-read_array_header d rest n,
    ))

dispatch-Spends :
    (d : RespDecoder) (src : List ℕ) (t : ℕ) (content rest : List ℕ)
    → length rest < length src
    → Spends src (dispatch d src t content rest)
dispatch-Spends d src t content rest h =
    unfold dispatch in
    elim (Bool-cases (t == b'+')) [
      | inl e ↦ rw e (Spends-left_over src _ (rw left_over-deliver_value h))
      | inr e ↦ rw e (elim (Bool-cases (t == b'-')) [
        | inl e' ↦ rw e' (Spends-left_over src _ (rw left_over-deliver_value h))
        | inr e' ↦ rw e' (read_number-Spends d src t rest (parse_int content) h)
      ])
    ]

finish_payload-Spends :
    (d : RespDecoder) (src payload tail : List ℕ)
    → length tail ≤ length src
    → Spends src (finish_payload d src payload tail)
finish_payload-Spends d src payload [] h = unfold finish_payload in tt
finish_payload-Spends d src payload (a ∷ []) h = unfold finish_payload in tt
finish_payload-Spends d src payload (a ∷ b ∷ rest) h =
    unfold finish_payload in
    elim (Bool-cases (a == 13 && b == 10)) [
      | inl e ↦ rw e (Spends-left_over src _ (rw left_over-deliver_value (omega arith)))
      | inr e ↦ rw e tt
    ]

read_payload-Spends :
    (d : RespDecoder) (len : ℕ) (src : List ℕ) → Spends src (read_payload d len src)
read_payload-Spends d len src =
    unfold read_payload in
    elim (Bool-cases (ltb (length src) (len + 2))) [
      | inl e ↦ rw e tt
      | inr e ↦ rw e (
          finish_payload-Spends d src (take len src) (drop len src)
            (omega (arith, length-drop {0} len src)))
    ]

-- A line takes at least its end.
pub read_line_pos :
    (src : List ℕ) (max_len n k : ℕ) → read_line src max_len ≡ ok (some (n, k)) → 2 ≤ k
unfolding read_line
read_line_pos src max_len n k h = ground arith

use_line-Spends :
    (d : RespDecoder) (t : ℕ) (src : List ℕ) (r : Result RespError (Option (ℕ × ℕ)))
    → ((n k : ℕ) → r ≡ ok (some (n, k)) → 2 ≤ k)
    → Spends (t ∷ src) (use_line d t src r)
use_line-Spends d t src (err e) h = unfold use_line in tt
use_line-Spends d t src (ok none) h = unfold use_line in tt
use_line-Spends d t src (ok (some (n, k))) h =
    unfold use_line in
    dispatch-Spends d (t ∷ src) t (take n src) (drop k (t ∷ src))
      (omega (arith, h n k refl, length-drop {0} k (t ∷ src)))

read_value-Spends : (d : RespDecoder) (src : List ℕ) → Spends src (read_value d src)
read_value-Spends d [] = unfold read_value in tt
read_value-Spends d (t ∷ src) =
    unfold read_value in
    elim (Bool-cases (is_type_byte t)) [
      | inl e ↦ rw e (use_line-Spends d t src _ (read_line_pos (t ∷ src) d.max_bulk_len))
      | inr e ↦ rw e tt
    ]

start_round-Spends :
    (d : RespDecoder) (src : List ℕ) (o : Option ℕ) → Spends src (start_round d src o)
start_round-Spends d src none = unfold start_round in read_value-Spends d src
start_round-Spends d src (some len) =
    unfold start_round in read_payload-Spends (record d { pending_bulk_len = none }) len src

-- A round that goes on has consumed some of the input.
pub round-Spends : (d : RespDecoder) (src : List ℕ) → Spends src (round d src)
round-Spends d src = unfold round in start_round-Spends d src d.pending_bulk_len

proceed-eq :
    (loop loop' : RespDecoder → List ℕ → Round) (src : List ℕ) (r : Round)
    → Spends src r
    → ((d : RespDecoder) (rest : List ℕ) → length rest < length src → loop d rest ≡ loop' d rest)
    → proceed loop r ≡ proceed loop' r
proceed-eq loop loop' src (item v d rest) h e = refl
proceed-eq loop loop' src (need_more d rest) h e = refl
proceed-eq loop loop' src (failed x d rest) h e = refl
proceed-eq loop loop' src (again d rest) h e = e d rest h

-- The loop is the same whatever the fuel, once there is more of it than input.
pub decode_loop-enough :
    (f g : ℕ) (d : RespDecoder) (src : List ℕ)
    → length src < f
    → length src < g
    → decode_loop f d src ≡ decode_loop g d src
unfolding decode_loop
decode_loop-enough zero g d src hf hg = absurd (omega arith)
decode_loop-enough (suc f) zero d src hf hg = absurd (omega arith)
decode_loop-enough (suc f) (suc g) d src hf hg =
    proceed-eq (decode_loop f) (decode_loop g) src (round d src) (round-Spends d src)
      λ d' rest h. decode_loop-enough f g d' rest (omega arith) (omega arith)

-- `decode` is one round, followed by `decode` where the round goes on.
pub decode_unfold : (d : RespDecoder) (src : List ℕ) → decode d src ≡ proceed decode (round d src)
decode_unfold d src =
    unfold decode in
    decode_loop-enough (length src + 1) (suc (length src)) d src (omega arith) (omega arith)
    ∙ unfold decode_loop in
      proceed-eq (decode_loop (length src)) (λ e rest. decode_loop (length rest + 1) e rest) src
        (round d src) (round-Spends d src)
        λ d' rest h. decode_loop-enough (length src) (length rest + 1) d' rest h (omega arith)

abbrev pub HasEnded : Round → Type 0
HasEnded (again d src) = ⊥
HasEnded _ = Unit

decode-HasEnded_below :
    (n : ℕ) (d : RespDecoder) (src : List ℕ) → length src < n → HasEnded (decode d src)
decode-HasEnded_below zero d src h = absurd (omega arith)
decode-HasEnded_below (suc n) d src h = rw decode_unfold (
    go (round d src) (round-Spends d src)
      λ d' rest lt. decode-HasEnded_below n d' rest (omega arith))
  where
    go :
        (r : Round)
        → Spends src r
        → ((d' : RespDecoder) (rest : List ℕ)
            → length rest < length src
            → HasEnded (decode d' rest))
        → HasEnded (proceed decode r)
    go (again d' rest) lt ih = ih d' rest lt
    go (item v d' rest) lt ih = tt
    go (need_more d' rest) lt ih = tt
    go (failed e d' rest) lt ih = tt

-- `decode` returns on every input and in every state of the decoder: its loop ends within the bytes
-- of the buffer, with a value, with a request for more bytes, or with an error.
pub decode-HasEnded : (d : RespDecoder) (src : List ℕ) → HasEnded (decode d src)
decode-HasEnded d src = decode-HasEnded_below (length src + 1) d src (omega arith)
