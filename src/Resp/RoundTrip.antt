-- ===== src/Resp/RoundTrip.antt =====
-- `decode` reads back what `encode_value` writes.
use invar.Prelude.{
  ℕ, suc, ◌+◌, ◌≤◌, ◌<◌, ◌≡◌, refl, sym, ap, ◌∙◌, Option, none, some, List, [], ◌∷◌, ◌++◌, length,
  length-append, take-length, drop-length, append_assoc, append-nil, ok, arith, false, ltb,
}
use Prim.Native.Nat.{max}
use invar.Prelude.Int.{ℤ, negsuc}
use invar.Resp.Value.{
  out_of_range, RespValue, RespValues, simple_string, error, integer, bulk_string, array,
  null_array, nil, cons, count, push, append,
}
use invar.Resp.Number.{decimal, show_int, parse_int, parse_digits, parse_digit, i64_max}
use invar.Resp.Number.Laws.{
  parse_int_least, length-show_int_least, IsReadable, parse_int-show_int, parse_int-decimal,
  length-show_int, length-decimal,
}
use invar.Resp.Encoder.{crlf, put_line, encode_value, encode_values}
use invar.Resp.Decoder.{
  failed, RespDecoder, ArrayFrame, item, again, find_crlf, dispatch, read_number, read_bulk_header,
  read_array_header, deliver, deliver_value, after_delivery, close, fill, round, start_round,
  read_payload, finish_payload, proceed, decode, failed,
}
use invar.Resp.Progress.{decode_unfold}
use invar.Resp.Lines.{HasNoCrlf, HasNoCrlf-decimal, HasNoCrlf-show_int, decode_line}

-- What a decoder with these limits can read back.
module _ (max_bulk_len max_array_len : ℕ) where
  abbrev mutual
    pub CanCarry : RespValue → Type 0
    CanCarry (simple_string s) = HasNoCrlf s × (length s ≤ max_bulk_len)
    CanCarry (error e) = HasNoCrlf e × (length e ≤ max_bulk_len)
    CanCarry (integer z) = IsReadable z
    CanCarry (bulk_string (some b)) = (length b ≤ max_bulk_len) × (length b ≤ i64_max)
    CanCarry (bulk_string none) = Unit {0}
    CanCarry (array vs) = (count vs ≤ max_array_len) × (count vs ≤ i64_max) × CanCarryAll vs
    CanCarry null_array = Unit {0}

    pub CanCarryAll : RespValues → Type 0
    CanCarryAll nil = Unit {0}
    CanCarryAll (cons v vs) = CanCarry v × CanCarryAll vs

-- How many arrays are open at once while a value is read. An empty array opens none.
abbrev mutual
  pub depth : RespValue → ℕ
  depth (array (cons v vs)) = suc (max (depth v) (depth_all vs))
  depth _ = 0

  pub depth_all : RespValues → ℕ
  depth_all nil = 0
  depth_all (cons v vs) = max (depth v) (depth_all vs)

-- `encode_value` keeps what `dst` holds.
mutual
  unfolding encode_value

  encode_value_after :
      (v : RespValue) (dst : List ℕ) → encode_value v dst ≡ dst ++ encode_value v []
  encode_value_after (simple_string s) dst = simp append_assoc
  encode_value_after (error e) dst = simp append_assoc
  encode_value_after (integer z) dst = simp append_assoc
  encode_value_after (bulk_string (some b)) dst = simp append_assoc
  encode_value_after (bulk_string none) dst = refl
  encode_value_after (array vs) dst =
      encode_values_after vs (put_line b'*' (decimal (count vs)) dst)
      ∙ rw (encode_values_after vs (put_line b'*' (decimal (count vs)) [])) (simp append_assoc)
  encode_value_after null_array dst = refl

  encode_values_after :
      (vs : RespValues) (dst : List ℕ) → encode_values vs dst ≡ dst ++ encode_values vs []
  encode_values_after nil dst = sym (append-nil dst)
  encode_values_after (cons v vs) dst =
      encode_values_after vs (encode_value v dst)
      ∙ rw (encode_value_after v dst, append_assoc)
          (ap (λ t. dst ++ t) (sym (encode_values_after vs (encode_value v []))))

abbrev idle : RespDecoder → List ArrayFrame → RespDecoder
idle d stk = record d { stack = stk; pending_bulk_len = none }

-- The decoder reads the text `wire` as the value `v`.
abbrev Reads : RespDecoder → List ArrayFrame → List ℕ → RespValue → Type 0
Reads d stk wire v =
    (rest : List ℕ)
    → decode (idle d stk) (wire ++ rest) ≡ proceed decode (deliver_value (idle d stk) rest v)

abbrev minus_one : List ℕ
minus_one = b'-' ∷ b'1' ∷ []

HasNoCrlf-minus_one : HasNoCrlf minus_one
HasNoCrlf-minus_one = unfold find_crlf in refl

parse_int-minus_one : parse_int minus_one ≡ ok (negsuc 0)
parse_int-minus_one = unfold parse_int parse_digits parse_digit in refl

module _ (d : RespDecoder) (stk : List ArrayFrame) where
  Reads-simple_string :
      (s : List ℕ)
      → HasNoCrlf s
      → length s ≤ d.max_bulk_len
      → Reads d stk (put_line b'+' s []) (simple_string s)
  Reads-simple_string s h fits rest = rw (append_assoc s crlf rest) (
      decode_line (idle d stk) b'+' s rest refl refl (λ e. omega arith) h fits
      ∙ ap (proceed decode) (unfold dispatch in refl))

  Reads-error :
      (s : List ℕ)
      → HasNoCrlf s
      → length s ≤ d.max_bulk_len
      → Reads d stk (put_line b'-' s []) (error s)
  Reads-error s h fits rest = rw (append_assoc s crlf rest) (
      decode_line (idle d stk) b'-' s rest refl refl (λ e. omega arith) h fits
      ∙ ap (proceed decode) (unfold dispatch in refl))

  Reads-integer :
      (z : ℤ)
      → IsReadable z
      → 20 ≤ d.max_bulk_len
      → Reads d stk (put_line b':' (show_int z) []) (integer z)
  Reads-integer z h room rest = rw (append_assoc (show_int z) crlf rest) (
      decode_line (idle d stk) b':' (show_int z) rest refl refl (λ e. omega arith)
        (HasNoCrlf-show_int z) (omega (arith, length-show_int z h))
      ∙ ap (proceed decode)
          (unfold dispatch in rw (parse_int-show_int z h) (unfold read_number in refl)))

  -- A header with a length that is in range.
  decode_bulk_header :
      (len : ℕ) (rest : List ℕ)
      → len ≤ d.max_bulk_len
      → len ≤ i64_max
      → 20 ≤ d.max_bulk_len
      → decode (idle d stk) (b'$' ∷ (decimal len ++ 13 ∷ 10 ∷ rest))
        ≡ decode (record (idle d stk) { pending_bulk_len = some len }) rest
  decode_bulk_header len rest fits small room =
      decode_line (idle d stk) b'$' (decimal len) rest refl refl (λ e. omega arith)
        (HasNoCrlf-decimal len) (omega (arith, length-decimal len))
      ∙ ap (proceed decode) {y = again (record (idle d stk) { pending_bulk_len = some len }) rest} (
          unfold dispatch in
          rw (parse_int-decimal len small) (unfold read_number read_bulk_header in ground arith))

  decode_array_header :
      (len : ℕ) (rest : List ℕ)
      → len ≤ d.max_array_len
      → len ≤ i64_max
      → 20 ≤ d.max_bulk_len
      → 0 < len
      → length stk < d.max_depth
      → decode (idle d stk) (b'*' ∷ (decimal len ++ 13 ∷ 10 ∷ rest))
        ≡ decode (idle d (record { remaining = len; elements = nil } ∷ stk)) rest
  decode_array_header len rest fits small room some_left deep =
      decode_line (idle d stk) b'*' (decimal len) rest refl refl (λ e. omega arith)
        (HasNoCrlf-decimal len) (omega (arith, length-decimal len))
      ∙ ap (proceed decode)
          {y = again (idle d (record { remaining = len; elements = nil } ∷ stk)) rest}
          (unfold dispatch in
            rw (parse_int-decimal len small) (unfold read_number read_array_header in ground arith))

  Reads-empty_array : 20 ≤ d.max_bulk_len → Reads d stk (put_line b'*' (decimal 0) []) (array nil)
  Reads-empty_array room rest = rw (append_assoc (decimal 0) crlf rest) (
      decode_line (idle d stk) b'*' (decimal 0) rest refl refl (λ e. omega arith)
        (HasNoCrlf-decimal 0) (omega (arith, length-decimal 0))
      ∙ ap (proceed decode) (
          unfold dispatch in
          rw (parse_int-decimal 0 (omega arith))
            (unfold read_number read_array_header in ground arith)))

  decode_payload :
      (b rest : List ℕ)
      → decode (record (idle d stk) { pending_bulk_len = some (length b) }) (b ++ 13 ∷ 10 ∷ rest)
        ≡ proceed decode (deliver_value (idle d stk) rest (bulk_string (some b)))
  decode_payload b rest =
      decode_unfold _ _
      ∙ ap (proceed decode) (
          unfold round start_round read_payload in
          rw (long, take-length, drop-length) (unfold finish_payload in refl))
    where
      long : ltb (length (b ++ 13 ∷ 10 ∷ rest)) (length b + 2) ≡ false
      long = rw length-append (ground arith)

  Reads-bulk_string :
      (b : List ℕ)
      → length b ≤ d.max_bulk_len
      → length b ≤ i64_max
      → 20 ≤ d.max_bulk_len
      → Reads d stk ((put_line b'$' (decimal (length b)) [] ++ b) ++ crlf) (bulk_string (some b))
  Reads-bulk_string b fits small room rest =
      simp append_assoc (
        decode_bulk_header (length b) (b ++ 13 ∷ 10 ∷ rest) fits small room ∙ decode_payload b rest)

  Reads-null_bulk_string :
      20 ≤ d.max_bulk_len → Reads d stk (b'$' ∷ b'-' ∷ b'1' ∷ crlf) (bulk_string none)
  Reads-null_bulk_string room rest =
      decode_line (idle d stk) b'$' minus_one rest refl refl (λ e. omega arith) HasNoCrlf-minus_one
        (omega arith)
      ∙ ap (proceed decode)
          (unfold dispatch in rw parse_int-minus_one (unfold read_number read_bulk_header in refl))

  Reads-null_array : 20 ≤ d.max_bulk_len → Reads d stk (b'*' ∷ b'-' ∷ b'1' ∷ crlf) null_array
  Reads-null_array room rest =
      decode_line (idle d stk) b'*' minus_one rest refl refl (λ e. omega arith) HasNoCrlf-minus_one
        (omega arith)
      ∙ ap (proceed decode)
          (unfold dispatch in rw parse_int-minus_one (unfold read_number read_array_header in refl))

-- A full array goes to its parent, and one with room left stays.
close_full :
    (f : ArrayFrame) (stk : List ArrayFrame)
    → f.remaining ≡ 0
    → close f stk ≡ deliver stk (array f.elements)
close_full f [] h = unfold close deliver in rw h
close_full f (g ∷ stk) h = unfold close deliver in rw h

close_open :
    (f : ArrayFrame) (stk : List ArrayFrame) → 0 < f.remaining → close f stk ≡ (f ∷ stk, none)
close_open f [] h = unfold close in ground arith
close_open f (g ∷ stk) h = unfold close in ground arith

push-append :
    (es : RespValues) (v : RespValue) (vs : RespValues)
    → append (push es v) vs ≡ append es (cons v vs)
push-append nil v vs = refl
push-append (cons e es) v vs = ap (cons e) (push-append es v vs)

append-nil_right : (es : RespValues) → append es nil ≡ es
append-nil_right nil = refl
append-nil_right (cons e es) = ap (cons e) (append-nil_right es)

encode_values-cons :
    (v : RespValue) (vs : RespValues)
    → encode_values (cons v vs) [] ≡ encode_value v [] ++ encode_values vs []
encode_values-cons v vs = unfold encode_values in encode_values_after vs (encode_value v [])

encode_array :
    (vs : RespValues)
    → encode_value (array vs) [] ≡ put_line b'*' (decimal (count vs)) [] ++ encode_values vs []
encode_array vs =
    unfold encode_value in encode_values_after vs (put_line b'*' (decimal (count vs)) [])

module _ (d : RespDecoder) (stk : List ArrayFrame) (f : ArrayFrame) (rest : List ℕ)
    (v : RespValue) where
  after_delivery-idle :
      (s : List ArrayFrame) (x : List ArrayFrame × Option RespValue)
      → after_delivery (idle d s) rest x ≡ after_delivery (idle d stk) rest x
  after_delivery-idle s (t, none) = unfold after_delivery in refl
  after_delivery-idle s (t, some w) = unfold after_delivery in refl

  -- The last missing element closes the array, which goes to its parent.
  deliver_value_last :
      f.remaining ≡ 1
      → deliver_value (idle d (f ∷ stk)) rest v
        ≡ deliver_value (idle d stk) rest (array (push f.elements v))
  deliver_value_last h =
      unfold deliver_value in
      after_delivery-idle (f ∷ stk) (deliver (f ∷ stk) v)
      ∙ ap (after_delivery (idle d stk) rest)
          (unfold deliver in close_full (fill f v) stk (omega arith))

  deliver_value_next :
      1 < f.remaining
      → deliver_value (idle d (f ∷ stk)) rest v ≡ again (idle d (fill f v ∷ stk)) rest
  deliver_value_next h =
      unfold deliver_value in
      ap (after_delivery (idle d (f ∷ stk)) rest)
        (unfold deliver in close_open (fill f v) stk (omega arith))

module _ (d : RespDecoder) (room : 20 ≤ d.max_bulk_len) where
  abbrev Fits : RespValue → Type 0
  Fits = CanCarry d.max_bulk_len d.max_array_len

  -- The elements of the innermost array, from the first one that is missing to the last.
  abbrev ReadsItems : List ArrayFrame → ArrayFrame → RespValues → Type 0
  ReadsItems stk f vs =
      (rest : List ℕ)
      → decode (idle d (f ∷ stk)) (encode_values vs [] ++ rest)
        ≡ proceed decode (deliver_value (idle d stk) rest (array (append f.elements vs)))

  ReadsItems-last :
      (stk : List ArrayFrame) (f : ArrayFrame) (v : RespValue)
      → f.remaining ≡ 1
      → Reads d (f ∷ stk) (encode_value v []) v
      → ReadsItems stk f (cons v nil)
  ReadsItems-last stk f v h reads rest =
      rw (encode_values-cons v nil, append_assoc)
        (reads (encode_values nil [] ++ rest)
          ∙ ap (proceed decode) (
              unfold encode_values in
              deliver_value_last d stk f rest v h
              ∙ rw (← push-append f.elements v nil, append-nil_right)))

  ReadsItems-next :
      (stk : List ArrayFrame) (f : ArrayFrame) (v : RespValue) (vs : RespValues)
      → 1 < f.remaining
      → Reads d (f ∷ stk) (encode_value v []) v
      → ReadsItems stk (fill f v) vs
      → ReadsItems stk f (cons v vs)
  ReadsItems-next stk f v vs h reads more rest =
      rw (encode_values-cons v vs, append_assoc)
        (reads (encode_values vs [] ++ rest)
          ∙ ap (proceed decode) (deliver_value_next d stk f (encode_values vs [] ++ rest) v h)
          ∙ more rest
          ∙ rw (push-append f.elements v vs))

  Reads-array :
      (stk : List ArrayFrame) (vs : RespValues)
      → 0 < count vs
      → count vs ≤ d.max_array_len
      → count vs ≤ i64_max
      → length stk < d.max_depth
      → ReadsItems stk (record { remaining = count vs; elements = nil }) vs
      → Reads d stk (encode_value (array vs) []) (array vs)
  Reads-array stk vs some_left fits small deep items rest =
      rw (encode_array vs, append_assoc, append_assoc)
        (decode_array_header d stk (count vs) (encode_values vs [] ++ rest) fits small room
            some_left deep
          ∙ items rest)

  mutual
    unfolding encode_value

    Reads-value :
        (v : RespValue) (stk : List ArrayFrame)
        → Fits v
        → length stk + depth v ≤ d.max_depth
        → Reads d stk (encode_value v []) v
    Reads-value (simple_string s) stk h deep = Reads-simple_string d stk s h.0 h.1
    Reads-value (error s) stk h deep = Reads-error d stk s h.0 h.1
    Reads-value (integer z) stk h deep = Reads-integer d stk z h room
    Reads-value (bulk_string (some b)) stk h deep = Reads-bulk_string d stk b h.0 h.1 room
    Reads-value (bulk_string none) stk h deep = Reads-null_bulk_string d stk room
    Reads-value null_array stk h deep = Reads-null_array d stk room
    Reads-value (array nil) stk h deep = Reads-empty_array d stk room
    Reads-value (array (cons v vs)) stk h deep =
        Reads-array stk (cons v vs) (omega arith) h.0 h.1 (omega arith)
          (Reads-values (cons v vs) stk _ refl (omega arith) h.2 (omega arith))

    Reads-values :
        (vs : RespValues) (stk : List ArrayFrame) (f : ArrayFrame)
        → f.remaining ≡ count vs
        → 0 < count vs
        → CanCarryAll d.max_bulk_len d.max_array_len vs
        → length stk + suc (depth_all vs) ≤ d.max_depth
        → ReadsItems stk f vs
    Reads-values nil stk f e some_left h deep = absurd (omega arith)
    Reads-values (cons v nil) stk f e some_left h deep =
        ReadsItems-last stk f v e (Reads-value v (f ∷ stk) h.0 (omega arith))
    Reads-values (cons v (cons w ws)) stk f e some_left h deep =
        ReadsItems-next stk f v (cons w ws) (omega arith)
          (Reads-value v (f ∷ stk) h.0 (omega arith))
          (Reads-values (cons w ws) stk (fill f v) (omega arith) (omega arith) h.1 (omega arith))

idle_self : (d : RespDecoder) → d.pending_bulk_len ≡ none → d ≡ idle d d.stack
idle_self d h = ground (arith, h)

-- A decoder at a frame boundary reads back the value that `encode_value` wrote, whatever follows it,
-- and ends where it began. The value's lines and payloads are within the decoder's limits, its
-- lines hold no CRLF, its integers are above the least `i64`, and it nests no deeper than allowed.
pub decode-encode_value :
    (d : RespDecoder) (v : RespValue) (rest : List ℕ)
    → d.stack ≡ []
    → d.pending_bulk_len ≡ none
    → 20 ≤ d.max_bulk_len
    → CanCarry d.max_bulk_len d.max_array_len v
    → depth v ≤ d.max_depth
    → decode d (encode_value v [] ++ rest) ≡ item v d rest
decode-encode_value d v rest empty no_bulk room h deep =
    let here : d ≡ idle d [] = ground (arith, empty, no_bulk) in
    ap (λ e. decode e (encode_value v [] ++ rest)) here
    ∙ Reads-value d room v [] h (omega arith) rest
    ∙ unfold deliver_value deliver in ap (λ e. item v e rest) (sym here)

-- The decoder refuses the encoding of the least `i64`: between two frames, and with a limit of at least
-- 20 bytes, it fails with an integer out of range, whatever follows, and leaves the bytes where they are.
pub decode-encode_least :
    (d : RespDecoder) (rest : List ℕ)
    → d.pending_bulk_len ≡ none
    → 20 ≤ d.max_bulk_len
    → decode d (encode_value (integer (negsuc i64_max)) [] ++ rest)
      ≡ failed out_of_range d (encode_value (integer (negsuc i64_max)) [] ++ rest)
decode-encode_least d rest no_bulk room =
    unfold encode_value in
    rw (append_assoc (show_int (negsuc i64_max)) crlf rest) (
      decode_line d b':' (show_int (negsuc i64_max)) rest no_bulk refl (λ e. omega arith)
        (HasNoCrlf-show_int (negsuc i64_max)) (omega (arith, length-show_int_least))
      ∙ ap (proceed decode)
          {y = failed out_of_range d (b':' ∷ (show_int (negsuc i64_max) ++ (crlf ++ rest)))}
          (unfold dispatch in rw parse_int_least (unfold read_number in refl)))
