-- ===== src/Strings/Pairs.antt =====
-- MSETNX writes all its pairs or none.
use invar.Prelude.{
  ℕ, ◌≡◌, ◌∙◌, refl, sym, ap, subst, ◌⊎◌, inl, inr, Bool, true, false, Option, none, some, List, [],
  ◌∷◌, All, if◌then◌else◌, arith, Bool-cases, Result, ok, err, ◌>>=◌, Bytes, bytes_eq, bytes_eq→eq,
}
use invar.Kv.{Tx, KvError, key_not_found, conflict, db_closed, undefined, Item, DbError, from_kv}
use invar.Kv.Writes.{from_kv_ok}
use invar.Strings.{string_entry, read_string, set_pairs, is_absent, all_absent, msetnx}
use invar.Strings.Ranges.{string_in_found}

-- The value that the last pair of a key has.
unfoldable pub last_value : Bytes → List (Bytes × Bytes) → Option Bytes
last_value k [] = none
last_value k ((j, v) ∷ pairs) = elim (last_value k pairs) [
  | some w ↦ some w
  | none ↦ if bytes_eq j k then some v else none
]

module _ (t : Tx) where
  open t use {State, get, set}

  -- A key reads as the value, or as before.
  pub Reads : State → State → Bytes → Option Bytes → Type 0
  Reads s s' k none = get s' k ≡ get s k
  Reads s s' k (some v) = read_string t s' k ≡ ok (some v)

  written_first :
      (s s1 s' : State) (j v k : Bytes) (later : Option Bytes)
      → set s (string_entry j v) ≡ ok s1
      → Reads s1 s' k later
      → Reads s s' k (elim later [ some w ↦ some w | none ↦ if bytes_eq j k then some v else none ])
  unfolding Reads
  written_first s s1 s' j v k (some w) h r = r
  written_first s s1 s' j v k none h r = elim (Bool-cases (bytes_eq j k)) [
    | inl e ↦
        let held = t.get-set_self s s1 (string_entry j v) h in
        let there : get s' k ≡ ok held.item =
          r ∙ ap (get s1) (sym (bytes_eq→eq j k e)) ∙ held.found in
        let answer : read_string t s' k ≡ ok (some v) =
          unfold read_string in
          string_in_found t (get s' k) held.item there held.same_meta
          ∙ ap (λ (b : Bytes). ok (some b)) held.same_value in
        subst (Reads s s' k) (sym (found e)) answer
    | inr e ↦ subst (Reads s s' k) (sym (missed e)) (r ∙ t.get-set_ne s s1 (string_entry j v) k h e)
  ]
    where
      found : bytes_eq j k ≡ true → (if bytes_eq j k then some v else none) ≡ some v
      found e = rw e refl

      missed :
          bytes_eq j k ≡ false
          → (if bytes_eq j k then some v else none) ≡ (let o : Option Bytes = none in o)
      missed e = rw e refl

  set_pairs-Reads :
      (s s' : State) (pairs : List (Bytes × Bytes)) (k : Bytes)
      → set_pairs t s pairs ≡ ok s'
      → Reads s s' k (last_value k pairs)
  unfolding set_pairs last_value
  set_pairs-Reads s s' [] k h = unfold Reads in ap (λ (s : State). get s k) (sym (same s s' h))
    where
      same : (a b : State) → ◌≡◌ {A = Result DbError State} (ok a) (ok b) → a ≡ b
      same a b h = cc
  set_pairs-Reads s s' ((j, v) ∷ pairs) k h =
      let (s1, first, rest) = bound (from_kv (set s (string_entry j v))) h in
      written_first s s1 s' j v k (last_value k pairs)
        (from_kv_ok t (set s (string_entry j v)) s1 first) (set_pairs-Reads s1 s' pairs k rest)
    where
      bound :
          (r : Result DbError State)
          → (r >>= λ s1. set_pairs t s1 pairs) ≡ ok s'
          → (s1 : State) × (r ≡ ok s1) × (set_pairs t s1 pairs ≡ ok s')
      bound (ok s1) h = (s1, refl, h)
      bound (err e) h = cc

  abbrev AllAbsent : State → List (Bytes × Bytes) → Type 0
  AllAbsent s pairs = All (λ (p : Bytes × Bytes). get s p.0 ≡ err key_not_found) pairs

  all_absent-AllAbsent :
      (s : State) (pairs : List (Bytes × Bytes))
      → all_absent t s pairs ≡ ok true
      → AllAbsent s pairs
  unfolding all_absent
  all_absent-AllAbsent s [] h = tt
  all_absent-AllAbsent s ((k, v) ∷ pairs) h =
      let (gone, rest) = first (get s k) h in (gone, all_absent-AllAbsent s pairs rest)
    where
      first :
          (r : Result KvError Item)
          → (is_absent t r >>= λ absent. if absent then all_absent t s pairs else ok false)
            ≡ ok true
          → (r ≡ err key_not_found) × (all_absent t s pairs ≡ ok true)
      first (ok item) h = unfold is_absent in cc
      first (err key_not_found) h = (refl, unfold is_absent in h)
      first (err conflict) h = unfold is_absent in cc
      first (err db_closed) h = unfold is_absent in cc
      first (err undefined) h = unfold is_absent in cc

  absent_all :
      (s : State) (pairs : List (Bytes × Bytes))
      → AllAbsent s pairs
      → all_absent t s pairs ≡ ok true
  unfolding all_absent is_absent
  absent_all s [] h = refl
  absent_all s ((k, v) ∷ pairs) (gone, h) =
      ap (λ r. is_absent t r >>= λ absent. if absent then all_absent t s pairs else ok false) gone
      ∙ absent_all s pairs h

  abbrev answering : ℕ → State → Result DbError (ℕ × State)
  answering n s = ok (n, s)

  -- What an MSETNX that succeeds answers and leaves.
  abbrev pub Outcome : State → State → List (Bytes × Bytes) → ℕ → Type 0
  Outcome s s' pairs n =
      ((n ≡ 0) × (s' ≡ s) × (AllAbsent s pairs → ⊥))
      ⊎ ((n ≡ 1) × AllAbsent s pairs × ((k : Bytes) → Reads s s' k (last_value k pairs)))

  stored :
      (s s' : State) (pairs : List (Bytes × Bytes)) (n : ℕ) (r : Result DbError State)
      → set_pairs t s pairs ≡ r
      → (r >>= answering 1) ≡ ok (n, s')
      → (1 ≡ n) × (set_pairs t s pairs ≡ ok s')
  stored s s' pairs n (ok s1) e h =
      let both : ((let one : ℕ = 1 in one) ≡ n) × (s1 ≡ s') = ground arith in
      (both.0, e ∙ ap (λ (s : State). ok s) both.1)
  stored s s' pairs n (err x) e h = cc

  by_absence :
      (s s' : State) (pairs : List (Bytes × Bytes)) (n : ℕ) (b : Bool)
      → all_absent t s pairs ≡ ok b
      → (if b then (set_pairs t s pairs >>= answering 1) else ok (0, s)) ≡ ok (n, s')
      → Outcome s s' pairs n
  by_absence s s' pairs n true e h =
      let (one, wrote) = stored s s' pairs n (set_pairs t s pairs) refl h in
      inr (sym one, all_absent-AllAbsent s pairs e, (λ k. set_pairs-Reads s s' pairs k wrote))
  by_absence s s' pairs n false e h =
      let both : ((let nought : ℕ = 0 in nought) ≡ n) × (s ≡ s') = ground arith in
      inl (sym both.0, sym both.1, (λ all. contradiction (sym e ∙ absent_all s pairs all)))
    where
      contradiction : ◌≡◌ {A = Result DbError Bool} (ok false) (ok true) → ⊥
      contradiction x = cc

  -- An MSETNX that succeeds either answers 0, where a key of its pairs is there, and changes nothing; or
  -- it answers 1, where none is, and then every key reads as the value that its last pair has, or is as
  -- before where no pair has it.
  pub msetnx_all_or_none :
      (s s' : State) (pairs : List (Bytes × Bytes)) (n : ℕ)
      → msetnx t s pairs ≡ ok (n, s')
      → Outcome s s' pairs n
  unfolding msetnx
  msetnx_all_or_none s s' pairs n h = go (all_absent t s pairs) refl h
    where
      go :
          (r : Result DbError Bool)
          → all_absent t s pairs ≡ r
          → (r >>= λ absent. if absent then (set_pairs t s pairs >>= answering 1) else ok (0, s))
            ≡ ok (n, s')
          → Outcome s s' pairs n
      go (ok b) e h = by_absence s s' pairs n b e h
      go (err x) e h = cc
