-- ===== src/Strings/Sums.antt =====
-- The sums of INCR and its kin stay within 64 bits.
use invar.Prelude.{
  ℕ, suc, ◌+◌, ◌-◌, ◌%◌, ◌^◌, ◌<◌, ◌≡◌, ◌∙◌, refl, sym, ap, true, false, Option, none, some, ltb,
  [], ◌∷◌, ◌==◌, zero, subst, Bool-cases, inl, inr, Result, ok, err, ◌>>=◌, Bytes, arith,
}
use invar.Prelude.Int.{ℤ, pos, negsuc, ◌+ℤ◌}
use invar.Kv.{Tx, Entry, Item, DbError, from_kv, keep_ttl_of}
use invar.Kv.Writes.{from_kv_ok, keep_ttl_of_same}
use invar.Resp.Number.{show_int}
use invar.Strings.{
  to_word, of_word, parse_digits_of, positive, negative, wrapping_add, parse_i64, string_entry,
  increment, increment_over,
}

abbrev pub IsI64 : ℤ → Type 0
IsI64 (pos n) = n < 2 ^ 63
IsI64 (negsuc n) = n < 2 ^ 63

of_word-IsI64 : (u : ℕ) → u < 2 ^ 64 → IsI64 (of_word u)
unfolding of_word
of_word-IsI64 u h = elim (Bool-cases (ltb u (2 ^ 63))) [
  | inl e ↦ rw e (ground arith)
  | inr e ↦ rw e (ground arith)
]

pub wrapping_add-IsI64 : (a b : ℤ) → IsI64 (wrapping_add a b)
unfolding wrapping_add
wrapping_add-IsI64 a b = of_word-IsI64 ((to_word a + to_word b) % 2 ^ 64) (omega arith)

of_word-to_word : (z : ℤ) → IsI64 z → of_word (to_word z) ≡ z
unfolding of_word to_word
of_word-to_word (pos n) h = let e : ltb n (2 ^ 63) ≡ true = ground arith in rw e refl
of_word-to_word (negsuc n) h =
    let e : ltb (2 ^ 64 - suc n) (2 ^ 63) ≡ false = ground arith in
    let back : 2 ^ 64 - suc (2 ^ 64 - suc n) ≡ n = omega arith in rw (e, back) refl

to_word-+ℤ :
    (a b : ℤ)
    → IsI64 a
    → IsI64 b
    → IsI64 (a +ℤ b)
    → (to_word a + to_word b) % 2 ^ 64 ≡ to_word (a +ℤ b)
unfolding ◌+ℤ◌ to_word
to_word-+ℤ (pos m) (pos n) ha hb h = ground arith
to_word-+ℤ (pos m) (negsuc n) ha hb h = ground arith
to_word-+ℤ (negsuc m) (pos n) ha hb h = ground arith
to_word-+ℤ (negsuc m) (negsuc n) ha hb h = ground arith

-- Where the sum is an `i64`, it is not wrapped.
pub wrapping_add_exact : (a b : ℤ) → IsI64 a → IsI64 b → IsI64 (a +ℤ b) → wrapping_add a b ≡ a +ℤ b
unfolding wrapping_add
wrapping_add_exact a b ha hb h = ap of_word (to_word-+ℤ a b ha hb h) ∙ of_word-to_word (a +ℤ b) h

positive-IsI64 : (o : Option ℕ) (z : ℤ) → positive o ≡ some z → IsI64 z
unfolding positive
positive-IsI64 none z h = cc
positive-IsI64 (some n) z h = elim (Bool-cases (ltb n (2 ^ 63))) [
  | inl e ↦
      let same : pos n ≡ z = cc (rw e at h) in
      let small : n < 2 ^ 63 = ground arith in subst IsI64 same small
  | inr e ↦ absurd (no_value z (rw e at h))
]
  where
    no_value : (z : ℤ) → ◌≡◌ {A = Option ℤ} none (some z) → ⊥
    no_value z e = cc

negative-IsI64 : (o : Option ℕ) (z : ℤ) → negative o ≡ some z → IsI64 z
unfolding negative
negative-IsI64 none z h = cc
negative-IsI64 (some zero) z h =
    let same : pos 0 ≡ z = cc in let small : 0 < 2 ^ 63 = omega arith in subst IsI64 same small
negative-IsI64 (some (suc n)) z h = elim (Bool-cases (ltb n (2 ^ 63))) [
  | inl e ↦
      let same : negsuc n ≡ z = cc (rw e at h) in
      let small : n < 2 ^ 63 = ground arith in subst IsI64 same small
  | inr e ↦ absurd (no_value z (rw e at h))
]
  where
    no_value : (z : ℤ) → ◌≡◌ {A = Option ℤ} none (some z) → ⊥
    no_value z e = cc

-- What `parse::<i64>` gives is in its range.
pub parse_i64-IsI64 : (bs : Bytes) (z : ℤ) → parse_i64 bs ≡ some z → IsI64 z
unfolding parse_i64
parse_i64-IsI64 [] z h = cc
parse_i64-IsI64 (b ∷ bs) z h = elim (Bool-cases (b == b'-')) [
  | inl e ↦ negative-IsI64 (parse_digits_of bs) z (rw e at h)
  | inr e ↦ elim (Bool-cases (b == b'+')) [
    | inl e' ↦ positive-IsI64 (parse_digits_of bs) z (rw (e, e') at h)
    | inr e' ↦ positive-IsI64 (parse_digits_of (b ∷ bs)) z (rw (e, e') at h)
  ]
]

module _ (t : Tx) where
  open t use {State, get, set}

  abbrev counted : Bytes → ℤ → Item → Entry
  counted key z item = record (string_entry key (show_int z)) { meta = item.meta }

  abbrev answering : ℤ → State → Result DbError (ℤ × State)
  answering z s = ok (z, s)

  answer_of :
      (r : Result DbError State) (z z' : ℤ) (s' : State)
      → (r >>= answering z) ≡ ok (z', s')
      → (z ≡ z') × (r ≡ ok s')
  answer_of (ok s'') z z' s' h = ground arith
  answer_of (err e) z z' s' h = cc

  number_found :
      (now : ℕ) (s : State) (key : Bytes) (amount current : ℤ) (item : Item)
      → parse_i64 item.value ≡ some current
      → increment_over t now s key amount (ok item) ≡ (
          from_kv (set s (keep_ttl_of now (counted key (wrapping_add current amount) item) item))
          >>= answering (wrapping_add current amount))
  unfolding increment_over
  number_found now s key amount current item e = rw (increment_over, e) refl

  -- INCRBY on a key that holds the text of an `i64`, by an `i64` such that the sum is one, answers the
  -- sum where it succeeds, and leaves its text under the key with the type byte that was there.
  pub increment_exact :
      (now : ℕ) (s s' : State) (key : Bytes) (amount current answer : ℤ) (item : Item)
      → get s key ≡ ok item
      → parse_i64 item.value ≡ some current
      → IsI64 amount
      → IsI64 (current +ℤ amount)
      → increment t now s key amount ≡ ok (answer, s')
      → (answer ≡ current +ℤ amount)
        × (item' : Item) × (get s' key ≡ ok item')
        × (item'.value ≡ show_int (current +ℤ amount))
        × (item'.meta ≡ item.meta)
  increment_exact now s s' key amount current answer item there reads ha hs h =
      let new : ℤ = wrapping_add current amount in
      let exact : new ≡ current +ℤ amount =
        wrapping_add_exact current amount (parse_i64-IsI64 item.value current reads) ha hs in
      let entry : Entry = keep_ttl_of now (counted key new item) item in
      let step : increment_over t now s key amount (ok item) ≡ ok (answer, s') =
        ap (increment_over t now s key amount) (sym there) ∙ (unfold increment in h) in
      let (same, stored) =
        answer_of (from_kv (set s entry)) new answer s'
          (sym (number_found now s key amount current item reads) ∙ step) in
      let (k, v, m) = keep_ttl_of_same now (counted key new item) item in
      let held = t.get-set_self s s' entry (from_kv_ok t (set s entry) s' stored) in
      (
        sym same ∙ exact,
        held.item,
        ap (get s') (sym k) ∙ held.found,
        held.same_value ∙ v ∙ ap show_int exact,
        held.same_meta ∙ m,
      )
