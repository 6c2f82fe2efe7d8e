-- ===== src/Resp/Limits.antt =====
-- The decoder's own state stays within its limits.
use invar.Prelude.{
  ℕ, zero, suc, ◌+◌, ◌≤◌, ◌<◌, ◌≡◌, refl, ◌∙◌, Option, none, some, List, [], ◌∷◌, length, take,
  drop, Result, ok, err, arith, Bool-cases, inl, inr, ltb, leb, ◌==◌, ◌&&◌, All,
}
use invar.Prelude.Int.{ℤ, pos, negsuc}
use invar.Resp.Value.{RespValue, RespError, array}
use invar.Resp.Number.{parse_int}
use invar.Resp.Decoder.{
  RespDecoder, ArrayFrame, Round, item, need_more, failed, again, read_number, read_bulk_header,
  read_array_header, deliver, deliver_value, after_delivery, close, fill, round, start_round,
  read_payload, finish_payload, read_value, use_line, dispatch, is_type_byte, proceed, decode,
}
use invar.Resp.Progress.{decode_unfold, round-Spends, Spends}

-- An open array still waits for elements, and for no more than the limit.
abbrev pub IsOpen : ℕ → ArrayFrame → Type 0
IsOpen max_array_len f = (0 < f.remaining) × (f.remaining ≤ max_array_len)

abbrev pub PendingFits : ℕ → Option ℕ → Type 0
PendingFits max_bulk_len none = Unit {0}
PendingFits max_bulk_len (some len) = len ≤ max_bulk_len

-- The arrays in progress and the payload awaited respect the limits.
pub record IsSound (d : RespDecoder) : Type 0 where
  pub shallow : length d.stack ≤ d.max_depth
  pub open_arrays : All (IsOpen d.max_array_len) d.stack
  pub pending : PendingFits d.max_bulk_len d.pending_bulk_len

-- `d'` is sound, and has the limits of `d`.
pub record KeepsLimits (d d' : RespDecoder) : Type 0 where
  pub sound : IsSound d'
  pub same_bulk : d'.max_bulk_len ≡ d.max_bulk_len
  pub same_array : d'.max_array_len ≡ d.max_array_len
  pub same_depth : d'.max_depth ≡ d.max_depth

abbrev pub state : Round → RespDecoder
state (item v d src) = d
state (need_more d src) = d
state (failed e d src) = d
state (again d src) = d

All-IsOpen-close :
    (m : ℕ) (f : ArrayFrame) (stk : List ArrayFrame)
    → f.remaining ≤ m
    → All (IsOpen m) stk
    → All (IsOpen m) (close f stk).0 × (length (close f stk).0 ≤ suc (length stk))
unfolding close
All-IsOpen-close m f [] h hs = ground arith
All-IsOpen-close m f (g ∷ stk) h hs =
    ground (arith, All-IsOpen-close m (fill g (array f.elements)) stk (omega arith) hs.1)

All-IsOpen-deliver :
    (m : ℕ) (stk : List ArrayFrame) (v : RespValue)
    → All (IsOpen m) stk
    → All (IsOpen m) (deliver stk v).0 × (length (deliver stk v).0 ≤ length stk)
All-IsOpen-deliver m [] v h = unfold deliver in (tt, omega arith)
All-IsOpen-deliver m (f ∷ stk) v h =
    unfold deliver in All-IsOpen-close m (fill f v) stk (omega arith) h.1

state-after_delivery :
    (d : RespDecoder) (src : List ℕ) (x : List ArrayFrame × Option RespValue)
    → state (after_delivery d src x) ≡ record d { stack = x.0 }
state-after_delivery d src (s, none) = unfold after_delivery in refl
state-after_delivery d src (s, some v) = unfold after_delivery in refl

deliver_value-KeepsLimits :
    (d : RespDecoder) (src : List ℕ) (v : RespValue)
    → IsSound d
    → KeepsLimits d (state (deliver_value d src v))
deliver_value-KeepsLimits d src v h =
    unfold deliver_value in
    rw state-after_delivery (
      let (open_left, short) = All-IsOpen-deliver d.max_array_len d.stack v h.open_arrays in
      record {
        sound = record { shallow = omega arith; open_arrays = open_left; pending = h.pending };
        same_bulk = refl;
        same_array = refl;
        same_depth = refl;
      })

KeepsLimits-refl : (d : RespDecoder) → IsSound d → KeepsLimits d d
KeepsLimits-refl d h = record { sound = h; same_bulk = refl; same_array = refl; same_depth = refl }

KeepsLimits-trans :
    {d d' d'' : RespDecoder} → KeepsLimits d d' → KeepsLimits d' d'' → KeepsLimits d d''
KeepsLimits-trans h k = record {
  sound = k.sound;
  same_bulk = k.same_bulk ∙ h.same_bulk;
  same_array = k.same_array ∙ h.same_array;
  same_depth = k.same_depth ∙ h.same_depth;
}

module _ (d : RespDecoder) (h : IsSound d) where
  read_bulk_header-KeepsLimits :
      (src : List ℕ) (n : ℤ) → KeepsLimits d (state (read_bulk_header d src n))
  read_bulk_header-KeepsLimits src (negsuc zero) =
      unfold read_bulk_header in deliver_value-KeepsLimits d src _ h
  read_bulk_header-KeepsLimits src (negsuc (suc n)) =
      unfold read_bulk_header in KeepsLimits-refl d h
  read_bulk_header-KeepsLimits src (pos len) =
      unfold read_bulk_header in
      elim (Bool-cases (ltb d.max_bulk_len len)) [
        | inl e ↦ rw e (KeepsLimits-refl d h)
        | inr e ↦ rw e (record {
          sound = record {
            shallow = h.shallow;
            open_arrays = h.open_arrays;
            pending = ground arith;
          };
          same_bulk = refl;
          same_array = refl;
          same_depth = refl;
        })
      ]

  read_array_header-KeepsLimits :
      (src : List ℕ) (n : ℤ) → KeepsLimits d (state (read_array_header d src n))
  read_array_header-KeepsLimits src (negsuc zero) =
      unfold read_array_header in deliver_value-KeepsLimits d src _ h
  read_array_header-KeepsLimits src (negsuc (suc n)) =
      unfold read_array_header in KeepsLimits-refl d h
  read_array_header-KeepsLimits src (pos len) =
      unfold read_array_header in
      elim (Bool-cases (ltb d.max_array_len len)) [
        | inl e ↦ rw e (KeepsLimits-refl d h)
        | inr e ↦ rw e (elim (Bool-cases (len == 0)) [
          | inl z ↦ rw z (deliver_value-KeepsLimits d src _ h)
          | inr z ↦ rw z (elim (Bool-cases (leb d.max_depth (length d.stack))) [
            | inl k ↦ rw k (KeepsLimits-refl d h)
            | inr k ↦ rw k (record {
              sound = record {
                shallow = ground arith;
                open_arrays = ((ground arith, ground arith), h.open_arrays);
                pending = h.pending;
              };
              same_bulk = refl;
              same_array = refl;
              same_depth = refl;
            })
          ])
        ])
      ]

  read_number-KeepsLimits :
      (src : List ℕ) (t : ℕ) (rest : List ℕ) (r : Result RespError ℤ)
      → KeepsLimits d (state (read_number d src t rest r))
  read_number-KeepsLimits src t rest (err e) = unfold read_number in KeepsLimits-refl d h
  read_number-KeepsLimits src t rest (ok n) =
      unfold read_number in
      elim (Bool-cases (t == b':')) [
        | inl e ↦ rw e (deliver_value-KeepsLimits d rest _ h)
        | inr e ↦ rw e (elim (Bool-cases (t == b'$')) [
          | inl k ↦ rw k (read_bulk_header-KeepsLimits rest n)
          | inr k ↦ rw k (read_array_header-KeepsLimits rest n)
        ])
      ]

  dispatch-KeepsLimits :
      (src : List ℕ) (t : ℕ) (content rest : List ℕ)
      → KeepsLimits d (state (dispatch d src t content rest))
  dispatch-KeepsLimits src t content rest =
      unfold dispatch in
      elim (Bool-cases (t == b'+')) [
        | inl e ↦ rw e (deliver_value-KeepsLimits d rest _ h)
        | inr e ↦ rw e (elim (Bool-cases (t == b'-')) [
          | inl k ↦ rw k (deliver_value-KeepsLimits d rest _ h)
          | inr k ↦ rw k (read_number-KeepsLimits src t rest (parse_int content))
        ])
      ]

  use_line-KeepsLimits :
      (t : ℕ) (src : List ℕ) (r : Result RespError (Option (ℕ × ℕ)))
      → KeepsLimits d (state (use_line d t src r))
  use_line-KeepsLimits t src (err e) = unfold use_line in KeepsLimits-refl d h
  use_line-KeepsLimits t src (ok none) = unfold use_line in KeepsLimits-refl d h
  use_line-KeepsLimits t src (ok (some (n, k))) =
      unfold use_line in dispatch-KeepsLimits (t ∷ src) t (take n src) (drop k (t ∷ src))

  read_value-KeepsLimits : (src : List ℕ) → KeepsLimits d (state (read_value d src))
  read_value-KeepsLimits [] = unfold read_value in KeepsLimits-refl d h
  read_value-KeepsLimits (t ∷ src) =
      unfold read_value in
      elim (Bool-cases (is_type_byte t)) [
        | inl e ↦ rw e (use_line-KeepsLimits t src _)
        | inr e ↦ rw e (KeepsLimits-refl d h)
      ]

  finish_payload-KeepsLimits :
      (src payload tail : List ℕ) → KeepsLimits d (state (finish_payload d src payload tail))
  finish_payload-KeepsLimits src payload [] = unfold finish_payload in KeepsLimits-refl d h
  finish_payload-KeepsLimits src payload (a ∷ []) = unfold finish_payload in KeepsLimits-refl d h
  finish_payload-KeepsLimits src payload (a ∷ b ∷ rest) =
      unfold finish_payload in
      elim (Bool-cases (a == 13 && b == 10)) [
        | inl e ↦ rw e (deliver_value-KeepsLimits d rest _ h)
        | inr e ↦ rw e (KeepsLimits-refl d h)
      ]

abbrev no_bulk : RespDecoder → RespDecoder
no_bulk d = record d { pending_bulk_len = none }

no_bulk-KeepsLimits : (d : RespDecoder) → IsSound d → KeepsLimits d (no_bulk d)
no_bulk-KeepsLimits d h = record {
  sound = record { shallow = h.shallow; open_arrays = h.open_arrays; pending = tt };
  same_bulk = refl;
  same_array = refl;
  same_depth = refl;
}

read_payload-KeepsLimits :
    (d : RespDecoder) (len : ℕ) (src : List ℕ)
    → IsSound d
    → len ≤ d.max_bulk_len
    → KeepsLimits d (state (read_payload (no_bulk d) len src))
read_payload-KeepsLimits d len src h fits =
    unfold read_payload in
    elim (Bool-cases (ltb (length src) (len + 2))) [
      | inl e ↦ rw e (record {
        sound = record { shallow = h.shallow; open_arrays = h.open_arrays; pending = fits };
        same_bulk = refl;
        same_array = refl;
        same_depth = refl;
      })
      | inr e ↦ rw e (
          KeepsLimits-trans (no_bulk-KeepsLimits d h) (
            finish_payload-KeepsLimits (no_bulk d) (no_bulk-KeepsLimits d h).sound src
              (take len src) (drop len src)))
    ]

start_round-KeepsLimits :
    (d : RespDecoder) (src : List ℕ) (o : Option ℕ)
    → IsSound d
    → PendingFits d.max_bulk_len o
    → KeepsLimits d (state (start_round d src o))
start_round-KeepsLimits d src none h fits = unfold start_round in read_value-KeepsLimits d h src
start_round-KeepsLimits d src (some len) h fits =
    unfold start_round in read_payload-KeepsLimits d len src h fits

round-KeepsLimits :
    (d : RespDecoder) (src : List ℕ) → IsSound d → KeepsLimits d (state (round d src))
round-KeepsLimits d src h =
    unfold round in start_round-KeepsLimits d src d.pending_bulk_len h h.pending

decode-KeepsLimits_below :
    (n : ℕ) (d : RespDecoder) (src : List ℕ)
    → length src < n
    → IsSound d
    → KeepsLimits d (state (decode d src))
decode-KeepsLimits_below zero d src lt h = absurd (omega arith)
decode-KeepsLimits_below (suc n) d src lt h = rw (decode_unfold d src) (
    go (round d src) (round-Spends d src) (round-KeepsLimits d src h)
      λ d' rest shorter k. decode-KeepsLimits_below n d' rest (omega arith) k)
  where
    go :
        (r : Round)
        → Spends src r
        → KeepsLimits d (state r)
        → ((d' : RespDecoder) (rest : List ℕ)
            → length rest < length src
            → IsSound d'
            → KeepsLimits d' (state (decode d' rest)))
        → KeepsLimits d (state (proceed decode r))
    go (again d' rest) spent k ih = KeepsLimits-trans k (ih d' rest spent k.sound)
    go (item v d' rest) spent k ih = k
    go (need_more d' rest) spent k ih = k
    go (failed e d' rest) spent k ih = k

-- Whatever bytes a client sends, and however `decode` returns: the decoder never holds more open
-- arrays than its nesting limit, every one of them still waits for at least one element and for no
-- more than the array limit, a payload it waits for is within the bulk limit, and the limits stay.
pub decode-KeepsLimits :
    (d : RespDecoder) (src : List ℕ) → IsSound d → KeepsLimits d (state (decode d src))
decode-KeepsLimits d src h = decode-KeepsLimits_below (length src + 1) d src (omega arith) h
