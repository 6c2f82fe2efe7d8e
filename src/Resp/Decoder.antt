-- ===== src/Resp/Decoder.antt =====
-- src/redis/resp.rs: `RespDecoder` and its `decode`, one round of the loop at a time.
use mathlib.Core.Option
use invar.Prelude.{
  ℕ, zero, suc, ◌+◌, ◌-◌, Option, none, some, List, [], ◌∷◌, length, take, drop, ltb, leb, ◌==◌,
  ◌&&◌, ◌||◌, Bool, if◌then◌else◌, Result, ok, err,
}
use invar.Prelude.Int.{ℤ, pos, negsuc}
use invar.Resp.Value.{
  RespValue, RespValues, simple_string, error, integer, bulk_string, array, null_array, nil, push,
  RespError, payload_without_crlf, invalid_bulk_length, bulk_too_long, invalid_array_length,
  array_too_long, depth_exceeded, unexpected_type_byte, line_too_long,
}
use invar.Resp.Number.{parse_int}

pub record ArrayFrame : Type 0 where
  pub remaining : ℕ
  pub elements : RespValues

-- The head of `stack` is the innermost array, which the source keeps at the end of its vector.
pub record RespDecoder : Type 0 where
  pub max_bulk_len : ℕ
  pub max_array_len : ℕ
  pub max_depth : ℕ
  pub stack : List ArrayFrame
  pub pending_bulk_len : Option ℕ

unfoldable pub with_limits : ℕ → ℕ → ℕ → RespDecoder
with_limits max_bulk_len max_array_len max_depth = record {
  max_bulk_len = max_bulk_len;
  max_array_len = max_array_len;
  max_depth = max_depth;
  stack = [];
  pending_bulk_len = none;
}

-- `top.elements.push(value); top.remaining -= 1`
abbrev pub fill : ArrayFrame → RespValue → ArrayFrame
fill f v = record { remaining = f.remaining - 1; elements = push f.elements v }

-- The `while` of `deliver`: a full array closes and goes to its parent.
unfoldable pub close : ArrayFrame → List ArrayFrame → List ArrayFrame × Option RespValue
close f [] = if f.remaining == 0 then ([], some (array f.elements)) else (f ∷ [], none)
close f (g ∷ rest) =
    let closed = close (fill g (array f.elements)) rest in
    if f.remaining == 0 then closed else (f ∷ g ∷ rest, none)

unfoldable pub deliver : List ArrayFrame → RespValue → List ArrayFrame × Option RespValue
unfolding close
deliver [] v = ([], some v)
deliver (f ∷ rest) v = close (fill f v) rest

unfoldable pub find_crlf : List ℕ → Option ℕ
find_crlf [] = none
find_crlf (a ∷ []) = none
find_crlf (a ∷ b ∷ rest) =
    if a == 13 && b == 10 then some 0 else Option.map suc (find_crlf (b ∷ rest))

-- The content's length and the bytes to consume. The source's `crlf - 1` is at least 0, since the
-- first byte is a type byte.
unfoldable pub read_line : List ℕ → ℕ → Result RespError (Option (ℕ × ℕ))
unfolding find_crlf
read_line src max_len = elim (find_crlf src) [
  | none ↦ if leb max_len (length src) then err line_too_long else ok none
  | some crlf ↦ if ltb max_len (crlf - 1) then err line_too_long else ok (some (crlf - 1, crlf + 2))
]

-- What one round of the loop does: `return` with an item, with `Ok(None)` or with an error, or go on.
pub data Round : Type 0 where
  item : RespValue → RespDecoder → List ℕ → Round
  need_more : RespDecoder → List ℕ → Round
  failed : RespError → RespDecoder → List ℕ → Round
  again : RespDecoder → List ℕ → Round

-- `if let Some(v) = self.deliver(value) { return Ok(Some(v)); }`
unfoldable pub after_delivery : RespDecoder → List ℕ → List ArrayFrame × Option RespValue → Round
after_delivery d src (stack, none) = again (record d { stack = stack }) src
after_delivery d src (stack, some v) = item v (record d { stack = stack }) src

unfoldable pub deliver_value : RespDecoder → List ℕ → RespValue → Round
unfolding after_delivery deliver
deliver_value d src v = after_delivery d src (deliver d.stack v)

-- The two bytes behind a payload, and the split of the buffer behind them. The last argument is
-- `src[len..]`.
unfoldable pub finish_payload : RespDecoder → List ℕ → List ℕ → List ℕ → Round
unfolding deliver_value
finish_payload d src payload (a ∷ b ∷ rest) =
    if a == 13 && b == 10
    then deliver_value d rest (bulk_string (some payload))
    else failed payload_without_crlf d src
finish_payload d src payload _ = failed payload_without_crlf d src

-- The payload of a bulk string whose header was consumed. `take()` has emptied the pending length.
unfoldable pub read_payload : RespDecoder → ℕ → List ℕ → Round
unfolding finish_payload
read_payload d len src =
    if ltb (length src) (len + 2)
    then need_more (record d { pending_bulk_len = some len }) src
    else finish_payload d src (take len src) (drop len src)

-- What a `$` header announces.
unfoldable pub read_bulk_header : RespDecoder → List ℕ → ℤ → Round
unfolding deliver_value
read_bulk_header d src (negsuc zero) = deliver_value d src (bulk_string none)
read_bulk_header d src (negsuc (suc n)) = failed (invalid_bulk_length (negsuc (suc n))) d src
read_bulk_header d src (pos len) =
    if ltb d.max_bulk_len len
    then failed (bulk_too_long len d.max_bulk_len) d src
    else again (record d { pending_bulk_len = some len }) src

-- What a `*` header announces.
unfoldable pub read_array_header : RespDecoder → List ℕ → ℤ → Round
unfolding deliver_value
read_array_header d src (negsuc zero) = deliver_value d src null_array
read_array_header d src (negsuc (suc n)) = failed (invalid_array_length (negsuc (suc n))) d src
read_array_header d src (pos len) =
    if ltb d.max_array_len len
    then failed (array_too_long len d.max_array_len) d src
    else if len == 0
    then deliver_value d src (array nil)
    else if leb d.max_depth (length d.stack)
    then failed depth_exceeded d src
    else again (record d { stack = record { remaining = len; elements = nil } ∷ d.stack }) src

-- The three lines with a number: `:`, `$` and `*`.
unfoldable pub read_number : RespDecoder → List ℕ → ℕ → List ℕ → Result RespError ℤ → Round
unfolding deliver_value read_bulk_header read_array_header
read_number d src t rest (err e) = failed e d src
read_number d src t rest (ok n) =
    if t == b':'
    then deliver_value d rest (integer n)
    else if t == b'$'
    then read_bulk_header d rest n
    else read_array_header d rest n

-- The `match` on the type byte `t`, with the content of its line and the bytes after it.
unfoldable pub dispatch : RespDecoder → List ℕ → ℕ → List ℕ → List ℕ → Round
unfolding deliver_value read_number
dispatch d src t content rest =
    if t == b'+'
    then deliver_value d rest (simple_string content)
    else if t == b'-'
    then deliver_value d rest (error content)
    else read_number d src t rest (parse_int content)

-- The bytes that have a case of the `match`.
abbrev pub is_type_byte : ℕ → Bool
is_type_byte t = t == b'+' || t == b'-' || t == b':' || t == b'$' || t == b'*'

-- What `read_line` found for the line that starts with `t`.
unfoldable pub use_line : RespDecoder → ℕ → List ℕ → Result RespError (Option (ℕ × ℕ)) → Round
unfolding dispatch
use_line d t src (err e) = failed e d (t ∷ src)
use_line d t src (ok none) = need_more d (t ∷ src)
use_line d t src (ok (some (content_len, consumed))) =
    dispatch d (t ∷ src) t (take content_len src) (drop consumed (t ∷ src))

-- A round that starts with a type byte. All five cases read the line first.
unfoldable pub read_value : RespDecoder → List ℕ → Round
unfolding read_line use_line
read_value d [] = need_more d []
read_value d (t ∷ src) =
    if is_type_byte t
    then use_line d t src (read_line (t ∷ src) d.max_bulk_len)
    else failed (unexpected_type_byte t) d (t ∷ src)

-- One round, by what `self.pending_bulk_len.take()` gives.
unfoldable pub start_round : RespDecoder → List ℕ → Option ℕ → Round
unfolding read_payload read_value
start_round d src (some len) = read_payload (record d { pending_bulk_len = none }) len src
start_round d src none = read_value d src

unfoldable pub round : RespDecoder → List ℕ → Round
unfolding start_round
round d src = start_round d src d.pending_bulk_len

-- A round that does not return is followed by the rest of the loop.
abbrev pub proceed : (RespDecoder → List ℕ → Round) → Round → Round
proceed loop (again d src) = loop d src
proceed loop (item v d src) = item v d src
proceed loop (need_more d src) = need_more d src
proceed loop (failed e d src) = failed e d src

-- The loop. A result `again` says that the fuel ran out.
unfoldable pub decode_loop : ℕ → RespDecoder → List ℕ → Round
unfolding round
decode_loop zero d src = again d src
decode_loop (suc f) d src = proceed (decode_loop f) (round d src)

-- Each round takes a byte at least.
unfoldable pub decode : RespDecoder → List ℕ → Round
unfolding decode_loop
decode d src = decode_loop (length src + 1) d src
