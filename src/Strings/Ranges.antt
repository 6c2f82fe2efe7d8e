-- ===== src/Strings/Ranges.antt =====
-- What SETRANGE writes, byte by byte.
use invar.Prelude.{
  ℕ, zero, suc, ◌+◌, ◌-◌, ◌≤◌, ◌≡◌, ◌∙◌, refl, sym, ap, Bool, true, false, Option, none, some, [],
  ◌∷◌, ◌++◌, length, length-append, length-take, length-drop, take, drop, ltb, leb, ◌==◌, ◌&&◌,
  if◌then◌else◌, Bool-cases, inl, inr, Result, ok, err, ◌>>=◌, Bytes, arith,
}
use invar.Kv.{Tx, KvError, Item, DbError, from_kv, set_keeping_ttl}
use invar.Kv.Writes.{from_kv_ok, set_keeping_ttl_holds}
use invar.Bitmap.{zeros, get_or_zero, type_string}
use invar.Bitmap.Bits.{get_or_zero-zeros}
use invar.Strings.{
  copy_into, max_of, set_range_in, or_empty_bytes, string_entry, string_in, read_string,
  store_string, set_range,
}

get_or_zero-append :
    (xs ys : Bytes) (i : ℕ)
    → get_or_zero (xs ++ ys) i
      ≡ (if ltb i (length xs) then get_or_zero xs i else get_or_zero ys (i - length xs))
get_or_zero-append [] ys i =
    let none_in : ltb i 0 ≡ false = ground arith in
    let same : i ≡ i - 0 = omega arith in rw none_in (ap (get_or_zero ys) same)
get_or_zero-append (x ∷ xs) ys zero = ground arith
get_or_zero-append (x ∷ xs) ys (suc i) = ground (arith, get_or_zero-append xs ys i)

get_or_zero-take :
    (n : ℕ) (xs : Bytes) (i : ℕ)
    → get_or_zero (take n xs) i ≡ (if ltb i n then get_or_zero xs i else 0)
get_or_zero-take zero xs i = ground arith
get_or_zero-take (suc n) [] i = ground arith
get_or_zero-take (suc n) (x ∷ xs) zero = ground arith
get_or_zero-take (suc n) (x ∷ xs) (suc i) = ground (arith, get_or_zero-take n xs i)

get_or_zero-drop : (n : ℕ) (xs : Bytes) (i : ℕ) → get_or_zero (drop n xs) i ≡ get_or_zero xs (n + i)
get_or_zero-drop zero xs i = ap (get_or_zero xs) {x = i} (omega arith)
get_or_zero-drop (suc n) [] i = refl
get_or_zero-drop (suc n) (x ∷ xs) i =
    get_or_zero-drop n xs i ∙ ap (get_or_zero (x ∷ xs)) {x = suc (n + i)} (omega arith)

-- The bytes from `offset` on are those of the value, and the others stay.
abbrev pub covers : ℕ → Bytes → ℕ → Bool
covers offset value i = leb offset i && ltb i (offset + length value)

pick : (b : Bool) (x y : ℕ) → b ≡ true → (if b then x else y) ≡ x
pick b x y e = rw e refl

skip : (b : Bool) (x y : ℕ) → b ≡ false → (if b then x else y) ≡ y
skip b x y e = rw e refl

get_or_zero-copy_into :
    (buffer : Bytes) (offset : ℕ) (value : Bytes) (i : ℕ)
    → offset + length value ≤ length buffer
    → get_or_zero (copy_into buffer offset value) i
      ≡ (if covers offset value i then get_or_zero value (i - offset) else get_or_zero buffer i)
unfolding copy_into
get_or_zero-copy_into buffer offset value i fits =
    let front : length (take offset buffer) ≡ offset = omega (arith, length-take offset buffer) in
    let rest : Bytes = drop (offset + length value) buffer in
    let split : get_or_zero (copy_into buffer offset value) i ≡ (
        if ltb i offset
        then get_or_zero (take offset buffer) i
        else get_or_zero (value ++ rest) (i - offset)) =
      get_or_zero-append (take offset buffer) (value ++ rest) i
      ∙ ap
          (λ (n : ℕ).
            if ltb i n
            then get_or_zero (take offset buffer) i
            else get_or_zero (value ++ rest) (i - n))
          front in
    elim (Bool-cases (ltb i offset)) [
      | inl before ↦
          let out : covers offset value i ≡ false = ground arith in
          split
          ∙ pick (ltb i offset) (get_or_zero (take offset buffer) i)
              (get_or_zero (value ++ rest) (i - offset)) before
          ∙ get_or_zero-take offset buffer i
          ∙ pick (ltb i offset) (get_or_zero buffer i) 0 before
          ∙ sym (
              skip (covers offset value i) (get_or_zero value (i - offset)) (get_or_zero buffer i)
                out)
      | inr behind ↦
          split
          ∙ skip (ltb i offset) (get_or_zero (take offset buffer) i)
              (get_or_zero (value ++ rest) (i - offset)) behind
          ∙ get_or_zero-append value rest (i - offset)
          ∙ elim (Bool-cases (ltb (i - offset) (length value))) [
            | inl within ↦
                let covered : covers offset value i ≡ true = ground arith in
                pick (ltb (i - offset) (length value)) (get_or_zero value (i - offset))
                  (get_or_zero rest (i - offset - length value)) within
                ∙ sym (
                    pick (covers offset value i) (get_or_zero value (i - offset))
                      (get_or_zero buffer i) covered)
            | inr beyond ↦
                let out : covers offset value i ≡ false = ground arith in
                let at : offset + length value + (i - offset - length value) ≡ i = ground arith in
                skip (ltb (i - offset) (length value)) (get_or_zero value (i - offset))
                  (get_or_zero rest (i - offset - length value)) beyond
                ∙ get_or_zero-drop (offset + length value) buffer (i - offset - length value)
                ∙ ap (get_or_zero buffer) at
                ∙ sym (
                    skip (covers offset value i) (get_or_zero value (i - offset))
                      (get_or_zero buffer i) out)
          ]
    ]

length-copy_into :
    (buffer : Bytes) (offset : ℕ) (value : Bytes)
    → offset + length value ≤ length buffer
    → length (copy_into buffer offset value) ≡ length buffer
unfolding copy_into
length-copy_into buffer offset value fits = omega (
  arith,
  length-append (take offset buffer) (value ++ drop (offset + length value) buffer),
  length-append value (drop (offset + length value) buffer),
  length-take offset buffer,
  length-drop (offset + length value) buffer,
)

length-zeros : (n : ℕ) → length (zeros n) ≡ n
length-zeros zero = refl
length-zeros (suc n) = omega (arith, length-zeros n)

-- The length and the bytes of what SETRANGE writes: the value from the offset on, and elsewhere what
-- was there, or zero.
pub record Overwrites (old : Bytes) (offset : ℕ) (value bytes : Bytes) : Type 0 where
  pub long : length bytes ≡ max_of (offset + length value) (length old)
  pub byte :
      (i : ℕ)
      → get_or_zero bytes i
        ≡ (if covers offset value i then get_or_zero value (i - offset) else get_or_zero old i)

set_range_in-Overwrites :
    (found : Option Bytes) (offset : ℕ) (value : Bytes)
    → Overwrites (or_empty_bytes found) offset value (set_range_in found offset value)
unfolding set_range_in
set_range_in-Overwrites none offset value =
    let size : length (zeros (offset + length value)) ≡ offset + length value =
      length-zeros (offset + length value) in
    record {
      long =
          length-copy_into (zeros (offset + length value)) offset value (omega (arith, size))
          ∙ size
          ∙ (ground arith);
      byte = λ i.
          get_or_zero-copy_into (zeros (offset + length value)) offset value i (omega (arith, size))
          ∙ ap (λ (b : ℕ). if covers offset value i then get_or_zero value (i - offset) else b)
              (get_or_zero-zeros (offset + length value) i);
    }
set_range_in-Overwrites (some old) offset value =
    let n : ℕ = max_of (offset + length value) (length old) in
    let big : (offset + length value ≤ n) × (length old ≤ n) = (ground arith, ground arith) in
    let size : length (zeros n) ≡ n = length-zeros n in
    let kept : length (copy_into (zeros n) 0 old) ≡ n =
      length-copy_into (zeros n) 0 old (omega (arith, size, big.1)) ∙ size in
    record {
      long =
          length-copy_into (copy_into (zeros n) 0 old) offset value (omega (arith, kept, big.0))
          ∙ kept;
      byte = λ i.
          get_or_zero-copy_into (copy_into (zeros n) 0 old) offset value i
            (omega (arith, kept, big.0))
          ∙ ap (λ (b : ℕ). if covers offset value i then get_or_zero value (i - offset) else b)
              (copied old n i (omega (arith, size, big.1)));
    }
  where
    past : (xs : Bytes) (i : ℕ) → length xs ≤ i → get_or_zero xs i ≡ 0
    past [] i h = refl
    past (x ∷ xs) zero h = absurd (omega arith)
    past (x ∷ xs) (suc i) h = past xs i (omega arith)

    copied :
        (old : Bytes) (n i : ℕ)
        → 0 + length old ≤ length (zeros n)
        → get_or_zero (copy_into (zeros n) 0 old) i ≡ get_or_zero old i
    copied old n i h =
        let here : i - 0 ≡ i = omega arith in
        get_or_zero-copy_into (zeros n) 0 old i h ∙ elim (Bool-cases (covers 0 old i)) [
          | inl c ↦
              pick (covers 0 old i) (get_or_zero old (i - 0)) (get_or_zero (zeros n) i) c
              ∙ ap (get_or_zero old) here
          | inr c ↦
              let beyond : length old ≤ i = ground arith in
              skip (covers 0 old i) (get_or_zero old (i - 0)) (get_or_zero (zeros n) i) c
              ∙ get_or_zero-zeros n i
              ∙ sym (past old i beyond)
        ]

module _ (t : Tx) where
  open t use {State, get}

  pub string_in_found :
      (r : Result KvError Item) (item : Item)
      → r ≡ ok item
      → item.meta ≡ type_string
      → string_in t r ≡ ok (some item.value)
  unfolding string_in
  string_in_found (ok i) item e m =
      let same : i ≡ item = cc in
      let plain : (i.meta == type_string) ≡ true = rw (ap (λ (j : Item). j.meta) same ∙ m) refl in
      rw plain (ap (λ (j : Item). ok (some j.value)) same)
  string_in_found (err e') item e m = cc

  abbrev answering : ℕ → State → Result DbError (ℕ × State)
  answering n s = ok (n, s)

  answer_of :
      (r : Result DbError State) (n len : ℕ) (s' : State)
      → (r >>= answering n) ≡ ok (len, s')
      → (n ≡ len) × (r ≡ ok s')
  answer_of (ok s'') n len s' h = ground arith
  answer_of (err e) n len s' h = cc

  pub store_string_inv :
      (now : ℕ) (s s' : State) (key value : Bytes) (len : ℕ)
      → store_string t now s key value ≡ ok (len, s')
      → (read_string t s' key ≡ ok (some value)) × (length value ≡ len)
  unfolding store_string read_string
  store_string_inv now s s' key value len h =
      let (same, stored) =
        answer_of (from_kv (set_keeping_ttl t now s (string_entry key value))) (length value) len s'
          h in
      let (item, found, v, m) =
        set_keeping_ttl_holds t now s s' (string_entry key value)
          (from_kv_ok t (set_keeping_ttl t now s (string_entry key value)) s' stored) in
      (string_in_found (get s' key) item found m ∙ ap (λ (b : Bytes). ok (some b)) v, same)

  -- A SETRANGE that succeeds, on a key that holds a string or nothing, leaves a string under the key
  -- whose bytes are those of the value from the offset on, and elsewhere those that were there, or zero,
  -- up to the end of the longer one; its length is the answer.
  pub read_string-set_range :
      (now : ℕ) (s s' : State) (key : Bytes) (offset : ℕ) (value : Bytes) (len : ℕ)
      (found : Option Bytes)
      → read_string t s key ≡ ok found
      → set_range t now s key offset value ≡ ok (len, s')
      → (bytes : Bytes) × (read_string t s' key ≡ ok (some bytes))
        × (length bytes ≡ len)
        × Overwrites (or_empty_bytes found) offset value bytes
  read_string-set_range now s s' key offset value len found was h =
      let stored : store_string t now s key (set_range_in found offset value) ≡ ok (len, s') =
        sym (ap (λ r. r >>= λ f. store_string t now s key (set_range_in f offset value)) was)
        ∙ (unfold set_range in h) in
      let (reads, size) =
        store_string_inv now s s' key (set_range_in found offset value) len stored in
      (set_range_in found offset value, reads, size, set_range_in-Overwrites found offset value)
