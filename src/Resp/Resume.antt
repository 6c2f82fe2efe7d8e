-- ===== src/Resp/Resume.antt =====
-- A frame that arrives in pieces: what the decoder does when the bytes come later.
use invar.Prelude.{
  ℕ, zero, suc, ◌+◌, ◌-◌, ◌≤◌, ◌<◌, ◌≡◌, refl, Option, none, some, List, [], ◌∷◌, ◌++◌, length,
  take, drop, length-append, take-append, drop-append, length-drop, Result, ok, err, arith,
  Bool-cases, inl, inr, Result-cases, true, false, Bool, ltb,
}
use invar.Prelude.Int.{ℤ, pos, negsuc}
use invar.Resp.Value.{RespValue, RespError, integer, simple_string, error, bulk_string}
use invar.Resp.Number.{parse_int}
use invar.Resp.Decoder.{
  RespDecoder, Round, item, need_more, failed, again, deliver_value, read_payload, read_bulk_header,
  read_array_header, read_line, find_crlf, dispatch, read_number, start_round, read_value, use_line,
  finish_payload, is_type_byte, round, proceed, decode,
}
use invar.Resp.Progress.{decode_unfold, round-Spends, Spends}

-- The same round over a buffer with `more` behind it.
abbrev pub extend : Round → List ℕ → Round
extend (item v d src) more = item v d (src ++ more)
extend (need_more d src) more = need_more d (src ++ more)
extend (failed e d src) more = failed e d (src ++ more)
extend (again d src) more = again d (src ++ more)

find_crlf-some :
    (src more : List ℕ) (i : ℕ)
    → find_crlf src ≡ some i
    → (find_crlf (src ++ more) ≡ some i) × (i + 2 ≤ length src)
unfolding find_crlf
find_crlf-some [] more i h = cc
find_crlf-some (a ∷ []) more i h = cc
find_crlf-some (a ∷ b ∷ rest) more i h = ground (arith, find_crlf-some (b ∷ rest) more (i - 1))

read_line-some :
    (src more : List ℕ) (max_len n k : ℕ)
    → read_line src max_len ≡ ok (some (n, k))
    → (read_line (src ++ more) max_len ≡ ok (some (n, k))) × (n + 2 ≤ k) × (k ≤ length src)
unfolding read_line
read_line-some src more max_len n k h = ground (arith, find_crlf-some src more (k - 2))

deliver_value-extend :
    (d : RespDecoder) (src more : List ℕ) (v : RespValue)
    → deliver_value d (src ++ more) v ≡ extend (deliver_value d src v) more
unfolding deliver_value
deliver_value-extend d src more v = ground arith

read_bulk_header-extend :
    (d : RespDecoder) (src more : List ℕ) (n : ℤ)
    → read_bulk_header d (src ++ more) n ≡ extend (read_bulk_header d src n) more
read_bulk_header-extend d src more (negsuc zero) =
    unfold read_bulk_header in deliver_value-extend d src more _
read_bulk_header-extend d src more (negsuc (suc n)) = unfold read_bulk_header in refl
read_bulk_header-extend d src more (pos n) = unfold read_bulk_header in ground arith

read_array_header-extend :
    (d : RespDecoder) (src more : List ℕ) (n : ℤ)
    → read_array_header d (src ++ more) n ≡ extend (read_array_header d src n) more
read_array_header-extend d src more (negsuc zero) =
    unfold read_array_header in deliver_value-extend d src more _
read_array_header-extend d src more (negsuc (suc n)) = unfold read_array_header in refl
read_array_header-extend d src more (pos n) = unfold read_array_header in ground arith

read_number-extend :
    (d : RespDecoder) (src : List ℕ) (t : ℕ) (rest more : List ℕ) (r : Result RespError ℤ)
    → read_number d (src ++ more) t (rest ++ more) r ≡ extend (read_number d src t rest r) more
read_number-extend d src t rest more (err e) = unfold read_number in refl
read_number-extend d src t rest more (ok n) =
    unfold read_number in
    ground (
      arith,
      deliver_value-extend d rest more (integer n),
      read_bulk_header-extend d rest more n,
      read_array_header-extend d rest more n,
    )

dispatch-extend :
    (d : RespDecoder) (src : List ℕ) (t : ℕ) (content rest more : List ℕ)
    → dispatch d (src ++ more) t content (rest ++ more)
      ≡ extend (dispatch d src t content rest) more
dispatch-extend d src t content rest more =
    unfold dispatch in
    ground (
      arith,
      deliver_value-extend d rest more (simple_string content),
      deliver_value-extend d rest more (error content),
      read_number-extend d src t rest more (parse_int content),
    )

finish_payload-extend :
    (d : RespDecoder) (src payload tail more : List ℕ)
    → 2 ≤ length tail
    → finish_payload d (src ++ more) payload (tail ++ more)
      ≡ extend (finish_payload d src payload tail) more
finish_payload-extend d src payload [] more h = absurd (omega arith)
finish_payload-extend d src payload (a ∷ []) more h = absurd (omega arith)
finish_payload-extend d src payload (a ∷ b ∷ rest) more h =
    unfold finish_payload in
    ground (arith, deliver_value-extend d rest more (bulk_string (some payload)))

-- Whether a round waits for input. Only a line or a payload that is not there whole does.
abbrev waits : Round → Bool
waits (need_more d src) = true
waits _ = false

waits-deliver_value :
    (d : RespDecoder) (src : List ℕ) (v : RespValue) → waits (deliver_value d src v) ≡ false
unfolding deliver_value
waits-deliver_value d src v = ground arith

waits-read_bulk_header :
    (d : RespDecoder) (src : List ℕ) (n : ℤ) → waits (read_bulk_header d src n) ≡ false
unfolding read_bulk_header
waits-read_bulk_header d src (negsuc zero) = waits-deliver_value d src _
waits-read_bulk_header d src (negsuc (suc n)) = refl
waits-read_bulk_header d src (pos n) = ground arith

waits-read_array_header :
    (d : RespDecoder) (src : List ℕ) (n : ℤ) → waits (read_array_header d src n) ≡ false
unfolding read_array_header
waits-read_array_header d src (negsuc zero) = waits-deliver_value d src _
waits-read_array_header d src (negsuc (suc n)) = refl
waits-read_array_header d src (pos n) = ground arith

waits-dispatch :
    (d : RespDecoder) (src : List ℕ) (t : ℕ) (content rest : List ℕ)
    → waits (dispatch d src t content rest) ≡ false
waits-dispatch d src t content rest = elim (Result-cases (parse_int content)) [
  | inl (e, p) ↦
      unfold dispatch read_number in
      ground (
        arith,
        waits-deliver_value d rest (simple_string content),
        waits-deliver_value d rest (error content),
      )
  | inr (n, p) ↦
      unfold dispatch read_number in
      ground (
        arith,
        waits-deliver_value d rest (simple_string content),
        waits-deliver_value d rest (error content),
        waits-deliver_value d rest (integer n),
        waits-read_bulk_header d rest n,
        waits-read_array_header d rest n,
      )
]

waits-finish_payload :
    (d : RespDecoder) (src payload tail : List ℕ)
    → waits (finish_payload d src payload tail) ≡ false
waits-finish_payload d src payload [] = unfold finish_payload in refl
waits-finish_payload d src payload (a ∷ []) = unfold finish_payload in refl
waits-finish_payload d src payload (a ∷ b ∷ rest) =
    unfold finish_payload in ground (arith, waits-deliver_value d rest (bulk_string (some payload)))

-- How the rounds `r` over `src` and `r'` over `src ++ more` compare: one that waits has changed
-- nothing, and one that consumes bytes or delivers a value does the same over the longer buffer.
abbrev Agrees : RespDecoder → List ℕ → List ℕ → Round → Round → Type 0
Agrees d src more (need_more d' src') r' = (d' ≡ d) × (src' ≡ src)
Agrees d src more (failed e d' src') r' = Unit {0}
Agrees d src more (item v d' src') r' = r' ≡ item v d' (src' ++ more)
Agrees d src more (again d' src') r' = r' ≡ again d' (src' ++ more)

Agrees-extend :
    (d : RespDecoder) (src more : List ℕ) (r r' : Round)
    → waits r ≡ false
    → r' ≡ extend r more
    → Agrees d src more r r'
Agrees-extend d src more (item v d' rest) r' n e = e
Agrees-extend d src more (failed x d' rest) r' n e = tt
Agrees-extend d src more (again d' rest) r' n e = e
Agrees-extend d src more (need_more d' rest) r' n e = cc

use_line-Agrees :
    (d : RespDecoder) (t : ℕ) (src more : List ℕ) (r r' : Result RespError (Option (ℕ × ℕ)))
    → ((n k : ℕ)
        → r ≡ ok (some (n, k))
        → (r' ≡ ok (some (n, k))) × (n + 2 ≤ k) × (k ≤ suc (length src)))
    → Agrees d (t ∷ src) more (use_line d t src r) (use_line d t (src ++ more) r')
use_line-Agrees d t src more (err e) r' h = unfold use_line in tt
use_line-Agrees d t src more (ok none) r' h = unfold use_line in (refl, refl)
use_line-Agrees d t src more (ok (some (n, k))) r' h =
    let (e, lo, hi) = h n k refl in
    rw e (
      unfold use_line in
      Agrees-extend d (t ∷ src) more _ _
        (waits-dispatch d (t ∷ src) t (take n src) (drop k (t ∷ src)))
        (rw (take-append n src more (omega arith), drop-append k (t ∷ src) more hi)
          (dispatch-extend d (t ∷ src) t (take n src) (drop k (t ∷ src)) more)))

read_payload-Agrees :
    (d : RespDecoder) (len : ℕ) (src more : List ℕ)
    → d.pending_bulk_len ≡ some len
    → Agrees d src more
        (read_payload (record d { pending_bulk_len = none }) len src)
        (read_payload (record d { pending_bulk_len = none }) len (src ++ more))
read_payload-Agrees d len src more e =
    unfold read_payload in
    elim (Bool-cases (ltb (length src) (len + 2))) [
      | inl short ↦ rw short (ground (arith, e), refl)
      | inr long ↦ rw long (
          Agrees-extend d src more _ _
            (waits-finish_payload (record d { pending_bulk_len = none }) src (take len src)
              (drop len src))
            (rw
              (
                longer long,
                take-append len src more (room long),
                drop-append len src more (room long),
              )
              (finish_payload-extend (record d { pending_bulk_len = none }) src (take len src)
                (drop len src) more (two_left long))))
    ]
  where
    room : ltb (length src) (len + 2) ≡ false → len ≤ length src
    room h = ground arith

    two_left : ltb (length src) (len + 2) ≡ false → 2 ≤ length (drop len src)
    two_left h = rw length-drop (ground arith)

    longer : ltb (length src) (len + 2) ≡ false → ltb (length (src ++ more)) (len + 2) ≡ false
    longer h = rw length-append (ground arith)

read_value-Agrees :
    (d : RespDecoder) (src more : List ℕ)
    → Agrees d src more (read_value d src) (read_value d (src ++ more))
read_value-Agrees d [] more = unfold read_value in (refl, refl)
read_value-Agrees d (t ∷ src) more =
    unfold read_value in
    elim (Bool-cases (is_type_byte t)) [
      | inl e ↦
          rw e (use_line-Agrees d t src more _ _ (read_line-some (t ∷ src) more d.max_bulk_len))
      | inr e ↦ rw e tt
    ]

start_round-Agrees :
    (d : RespDecoder) (src more : List ℕ) (o : Option ℕ)
    → d.pending_bulk_len ≡ o
    → Agrees d src more (start_round d src o) (start_round d (src ++ more) o)
start_round-Agrees d src more none e = unfold start_round in read_value-Agrees d src more
start_round-Agrees d src more (some len) e =
    unfold start_round in read_payload-Agrees d len src more e

round-Agrees :
    (d : RespDecoder) (src more : List ℕ) → Agrees d src more (round d src) (round d (src ++ more))
round-Agrees d src more = unfold round in start_round-Agrees d src more d.pending_bulk_len refl

-- `whole`, a run over a buffer with `more` behind it, continues the run over the buffer alone.
abbrev pub Continues : List ℕ → Round → Round → Type 0
Continues more whole (need_more d src) = whole ≡ decode d (src ++ more)
Continues more whole (item v d src) = whole ≡ item v d (src ++ more)
Continues more whole _ = Unit {0}

decode-Continues_below :
    (n : ℕ) (d : RespDecoder) (src more : List ℕ)
    → length src < n
    → Continues more (decode d (src ++ more)) (decode d src)
decode-Continues_below zero d src more h = absurd (omega arith)
decode-Continues_below (suc n) d src more h = rw (decode_unfold d src) (
    go (round d src) (round-Spends d src) (round-Agrees d src more)
      λ d' rest lt. decode-Continues_below n d' rest more (omega arith))
  where
    whole : decode d (src ++ more) ≡ proceed decode (round d (src ++ more))
    whole = decode_unfold d (src ++ more)

    go :
        (r : Round)
        → Spends src r
        → Agrees d src more r (round d (src ++ more))
        → ((d' : RespDecoder) (rest : List ℕ)
            → length rest < length src
            → Continues more (decode d' (rest ++ more)) (decode d' rest))
        → Continues more (decode d (src ++ more)) (proceed decode r)
    go (item v d' rest) lt agree ih = rw (whole, agree)
    go (need_more d' rest) lt agree ih = cc (agree.0, agree.1)
    go (failed e d' rest) lt agree ih = tt
    go (again d' rest) lt agree ih = rw (whole, agree) (ih d' rest lt)

-- A frame may arrive in pieces. If `decode` asks for more bytes, then decoding the rest of the
-- buffer with the bytes that come later is the same as decoding the whole buffer at once; if it
-- returns a value, it returns that value, the same state and the bytes behind it whatever follows.
pub decode-Continues :
    (d : RespDecoder) (src more : List ℕ) → Continues more (decode d (src ++ more)) (decode d src)
decode-Continues d src more = decode-Continues_below (length src + 1) d src more (omega arith)
