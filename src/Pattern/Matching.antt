-- ===== src/Pattern/Matching.antt =====
-- What a pattern means, and the proof that `match_at` decides it.
use mathlib.Core.Bool.{false≢true}
use invar.Prelude.{
  ℕ, zero, suc, ◌+◌, ◌≤◌, ◌<◌, ◌≡◌, ◌↔◌, refl, sym, subst, drop-length_self, drop-nil, drop-drop,
  drop-tail, Bool, true, false, Option, none, some, List, [], ◌∷◌, length, drop, ltb, ◌==◌, arith,
  ◌∙◌, Bool-cases, inl, inr,
}
use invar.Pattern.{
  star, max_star_nesting, match_byte, drop_stars, is_empty, Answer, retry, expand, go_on,
  match_star, guard_nesting, match_loop, match_at, glob_match,
}
use invar.Pattern.Bytes.{stars, IsWithin, match_byte-IsWithin, match_byte_rest}

-- A star stands for any bytes, and any other front of a pattern for one byte that it matches.
pub data Matches (nocase : Bool) : List ℕ → List ℕ → Type 0 where
  done : Matches nocase [] []
  leave :
      {p : ℕ} {pat s : List ℕ}
      → (p == star) ≡ true
      → Matches nocase pat s
      → Matches nocase (p ∷ pat) s
  take_byte :
      {p c : ℕ} {pat s : List ℕ}
      → (p == star) ≡ true
      → Matches nocase (p ∷ pat) s
      → Matches nocase (p ∷ pat) (c ∷ s)
  byte :
      {p c : ℕ} {pat rest s : List ℕ}
      → (p == star) ≡ false
      → match_byte nocase c p pat ≡ some rest
      → Matches nocase rest s
      → Matches nocase (p ∷ pat) (c ∷ s)

drop_stars-IsWithin : (pat : List ℕ) → IsWithin (drop_stars pat) pat
unfolding drop_stars
drop_stars-IsWithin [] = omega arith
drop_stars-IsWithin (p ∷ pat) = ground (arith, drop_stars-IsWithin pat)

-- What is left of a run of stars starts with no star.
drop_stars_front :
    (pat : List ℕ) (p : ℕ) (rest : List ℕ) → drop_stars pat ≡ p ∷ rest → (p == star) ≡ false
unfolding drop_stars
drop_stars_front [] p rest h = cc
drop_stars_front (q ∷ pat) p rest h = ground (arith, drop_stars_front pat p rest)

module _ (nocase : Bool) where
  abbrev M : List ℕ → List ℕ → Type 0
  M = Matches nocase

  -- A run of stars is one star.
  drop_stars_sound : (pat s : List ℕ) → M (drop_stars pat) s → M pat s
  unfolding drop_stars
  drop_stars_sound [] s h = h
  drop_stars_sound (p ∷ pat) s h = elim (Bool-cases (p == star)) [
    | inl e ↦ leave e (drop_stars_sound pat s (rw e at h))
    | inr e ↦ rw e at h
  ]

  drop_stars_step :
      (pat s : List ℕ)
      → M pat s
      → ((p : ℕ) (rest : List ℕ)
          → pat ≡ p ∷ rest
          → (p == star) ≡ true
          → (n : ℕ) × M (drop_stars rest) (drop n s))
      → (n : ℕ) × M (drop_stars pat) (drop n s)
  unfolding drop_stars
  drop_stars_step [] s h run = (0, h)
  drop_stars_step (p ∷ pat) s h run = elim (Bool-cases (p == star)) [
    | inl e ↦ let (n, k) = run p pat refl e in (n, rw e k)
    | inr e ↦ (0, rw e h)
  ]

  -- What a star leaves is matched by what stands behind its run.
  star_run :
      {q : List ℕ} {s : List ℕ}
      → M q s
      → (p : ℕ) (pat : List ℕ) → q ≡ p ∷ pat
      → (p == star) ≡ true
      → (n : ℕ) × M (drop_stars pat) (drop n s)
  star_run done p pat e x = cc
  star_run (leave {pat = r} {s = t} y h) p pat e x =
      let tails : r ≡ pat = cc in
      subst (λ (l : List ℕ). (n : ℕ) × M (drop_stars l) (drop n t)) tails
        (drop_stars_step r t h (star_run h))
  star_run (take_byte y h) p pat e x = let (n, k) = star_run h p pat e x in (suc n, k)
  star_run (byte y k h) p pat e x = absurd (false≢true (cc (y, x, e)))

  -- A star takes what stands before a match of the rest.
  star_takes :
      (p : ℕ) (pat : List ℕ)
      → (p == star) ≡ true
      → (n : ℕ) (s : List ℕ) → M (p ∷ pat) (drop n s)
      → M (p ∷ pat) s
  star_takes p pat e zero s h = h
  star_takes p pat e (suc n) [] h = h
  star_takes p pat e (suc n) (c ∷ s) h = take_byte e (star_takes p pat e n s h)

  -- A front that is no star needs its byte.
  byte_inv :
      {p c : ℕ} {pat s : List ℕ}
      → (p == star) ≡ false
      → M (p ∷ pat) (c ∷ s)
      → (rest : List ℕ) × (match_byte nocase c p pat ≡ some rest) × M rest s
  byte_inv e (leave x h) = cc (e, x)
  byte_inv e (take_byte x h) = cc (e, x)
  byte_inv e (byte {rest = r} x k h) = (r, k, h)

  not-Matches-nil : {p : ℕ} {pat : List ℕ} → (p == star) ≡ false → ¬ M (p ∷ pat) []
  not-Matches-nil e (leave x h) = cc (e, x)

  -- The empty string is matched by stars alone.
  Matches-nil : (pat : List ℕ) → M pat [] → is_empty (drop_stars pat) ≡ true
  unfolding drop_stars
  Matches-nil [] h = refl
  Matches-nil (p ∷ pat) (leave x h) = rw x (Matches-nil pat h)

  nil-Matches : (pat : List ℕ) → is_empty (drop_stars pat) ≡ true → M pat []
  unfolding drop_stars
  nil-Matches [] h = done
  nil-Matches (p ∷ pat) h = elim (Bool-cases (p == star)) [
    | inl e ↦ leave e (nil-Matches pat (rw e at h))
    | inr e ↦ absurd (false≢true (rw e at h))
  ]

  -- What an answer says. A raised flag rules out every later start too.
  abbrev Verdict : List ℕ → List ℕ → Answer → Type 0
  Verdict pat s (true, skip) = M pat s
  Verdict pat s (false, false) = ¬ M pat s
  Verdict pat s (false, true) = (n : ℕ) → ¬ M pat (drop n s)

  -- The same of the loop of a star, which always raises the flag when it fails.
  abbrev Search : List ℕ → List ℕ → Answer → Type 0
  Search pat s (true, skip) = (n : ℕ) × M pat (drop n s)
  Search pat s (false, false) = ⊥
  Search pat s (false, true) = (n : ℕ) → ¬ M pat (drop n s)

  module _ (p : ℕ) (pat : List ℕ) (not_star : (p == star) ≡ false) (attempt : List ℕ → Answer) where
    retry-Search :
        (c : ℕ) (s : List ℕ) (a next : Answer)
        → Verdict (p ∷ pat) (c ∷ s) a
        → Search (p ∷ pat) s next
        → Search (p ∷ pat) (c ∷ s) (retry a next)
    retry-Search c s (true, k) next v rest = (0, v)
    retry-Search c s (false, true) next v rest = v
    retry-Search c s (false, false) (true, k) v rest = (suc rest.0, rest.1)
    retry-Search c s (false, false) (false, true) v rest = elim [ zero ↦ v | suc n ↦ rest n ]
    retry-Search c s (false, false) (false, false) v rest = rest

    expand-Search :
        (s : List ℕ)
        → ((c : ℕ) (t : List ℕ) → Verdict (p ∷ pat) (c ∷ t) (attempt (c ∷ t)))
        → Search (p ∷ pat) s (expand attempt s)
    unfolding expand
    expand-Search [] each = λ n. rw drop-nil (not-Matches-nil not_star)
    expand-Search (c ∷ s) each =
        retry-Search c s (attempt (c ∷ s)) (expand attempt s) (each c s) (expand-Search s each)

  module _ (p : ℕ) (pat : List ℕ) (is_star : (p == star) ≡ true) where
    Search-Verdict : (s : List ℕ) (a : Answer) → Search (drop_stars pat) s a → Verdict (p ∷ pat) s a
    Search-Verdict s (true, k) (n, h) =
        star_takes p pat is_star n s (leave is_star (drop_stars_sound pat _ h))
    Search-Verdict s (false, true) none_left =
        λ n h. let (k, m) = star_run h p pat refl is_star in none_left (n + k) (rw drop-drop at m)
    Search-Verdict s (false, false) h = absurd h

  -- The arms for one byte.
  module _ (p : ℕ) (pat : List ℕ) (not_star : (p == star) ≡ false) where
    byte-Verdict :
        (c d : ℕ) (rest s : List ℕ) (a : Answer)
        → match_byte nocase c p pat ≡ some rest
        → Verdict rest (d ∷ s) a
        → Verdict (p ∷ pat) (c ∷ d ∷ s) a
    byte-Verdict c d rest s (true, k) e v = byte not_star e v
    byte-Verdict c d rest s (false, false) e v = λ h.
        let (rest', e', m) = byte_inv not_star h in
        v (subst (λ (l : List ℕ). M l (d ∷ s)) (match_byte_rest nocase c c p pat rest' rest e' e) m)
    byte-Verdict c d rest s (false, true) e v = λ n h. later n (drop n (c ∷ d ∷ s)) refl h
      where
        later : (n : ℕ) (t : List ℕ) → drop n (c ∷ d ∷ s) ≡ t → ¬ M (p ∷ pat) t
        later n [] cut h = not-Matches-nil not_star h
        later n (b ∷ t) cut h =
            let (rest', e', m) = byte_inv not_star h in
            let m' : M rest t =
              subst (λ (l : List ℕ). M l t) (match_byte_rest nocase b c p pat rest' rest e' e) m in
            v n (subst (M rest) (drop-tail n c b (d ∷ s) t cut) m')

    go_on-Verdict :
        (loop : List ℕ → List ℕ → Answer) (c : ℕ) (s : List ℕ) (o : Option (List ℕ))
        → match_byte nocase c p pat ≡ o
        → ((rest : List ℕ) (d : ℕ) (t : List ℕ)
            → o ≡ some rest
            → s ≡ d ∷ t
            → Verdict rest (d ∷ t) (loop rest (d ∷ t)))
        → Verdict (p ∷ pat) (c ∷ s) (go_on loop s o)
    go_on-Verdict loop c s none e each = λ h. let (rest, e', m) = byte_inv not_star h in cc (e, e')
    go_on-Verdict loop c [] (some rest) e each = last (is_empty (drop_stars rest)) refl
      where
        last : (b : Bool) → is_empty (drop_stars rest) ≡ b → Verdict (p ∷ pat) (c ∷ []) (b, false)
        last true h = byte not_star e (nil-Matches rest h)
        last false h = λ m.
            let (rest', e', m') = byte_inv not_star m in
            absurd (
              false≢true (
                sym h
                ∙ Matches-nil rest (
                    subst (λ (l : List ℕ). M l [])
                      (match_byte_rest nocase c c p pat rest' rest e' e) m')))
    go_on-Verdict loop c (d ∷ s) (some rest) e each =
        byte-Verdict c d rest s (loop rest (d ∷ s)) e (each rest d s refl refl)

  -- The arm for a star, over any way to match what stands behind the run.
  star-Verdict :
      (enter : List ℕ → List ℕ → Answer) (p : ℕ) (pat rest : List ℕ) (c : ℕ) (s : List ℕ)
      → (p == star) ≡ true
      → drop_stars pat ≡ rest
      → ((d : ℕ) (t : List ℕ) → Verdict rest (d ∷ t) (enter rest (d ∷ t)))
      → Verdict (p ∷ pat) (c ∷ s) (match_star enter rest (c ∷ s))
  star-Verdict enter p pat [] c s e run each =
      star_takes p pat e (length (c ∷ s)) (c ∷ s)
        (rw drop-length_self (leave e (drop_stars_sound pat [] (rw run done))))
  star-Verdict enter p pat (q ∷ rest) c s e run each = Search-Verdict p pat e (c ∷ s) _ (
      rw run
        (expand-Search q rest (drop_stars_front pat q rest run) (enter (q ∷ rest)) (c ∷ s) each))

  guard-Verdict :
      (nesting : ℕ) (loop : List ℕ → List ℕ → Answer) (pat s : List ℕ)
      → nesting ≤ max_star_nesting
      → Verdict pat s (loop pat s)
      → Verdict pat s (guard_nesting nesting loop pat s)
  guard-Verdict nesting loop pat s h v =
      let low : ltb max_star_nesting nesting ≡ false = ground arith in rw low v

  match_loop-Verdict :
      (f nesting : ℕ) (pat : List ℕ) (c : ℕ) (s : List ℕ)
      → length pat < f
      → nesting + stars pat ≤ max_star_nesting
      → Verdict pat (c ∷ s) (match_loop f nocase nesting pat (c ∷ s))
  unfolding match_loop
  match_loop-Verdict zero nesting pat c s hf hn = absurd (omega arith)
  match_loop-Verdict (suc f) nesting [] c s hf hn = λ h. elim h [ ]
  match_loop-Verdict (suc f) nesting (p ∷ pat) c s hf hn = elim (Bool-cases (p == star)) [
    | inl e ↦ rw e (
        star-Verdict (guard_nesting (suc nesting) (match_loop f nocase (suc nesting))) p pat
          (drop_stars pat) c s e refl
          λ d t.
            guard-Verdict (suc nesting) (match_loop f nocase (suc nesting)) (drop_stars pat) (d ∷ t)
              (ground (arith, e))
              (match_loop-Verdict f (suc nesting) (drop_stars pat) d t
                (omega (arith, drop_stars-IsWithin pat))
                (ground (arith, e, drop_stars-IsWithin pat))))
    | inr e ↦ rw e (
        go_on-Verdict p pat e (match_loop f nocase nesting) c s (match_byte nocase c p pat) refl
          λ rest d t matched _.
            match_loop-Verdict f nesting rest d t
              (omega (arith, match_byte-IsWithin nocase c p pat rest matched))
              (ground (arith, e, match_byte-IsWithin nocase c p pat rest matched)))
  ]

  answer_iff : (pat s : List ℕ) (a : Answer) → Verdict pat s a → (a.0 ≡ true) ↔ M pat s
  answer_iff pat s (true, k) v = (λ e. v, λ m. refl)
  answer_iff pat s (false, false) v = (λ e. absurd (false≢true e), λ m. absurd (v m))
  answer_iff pat s (false, true) v = (λ e. absurd (false≢true e), λ m. absurd (v 0 m))

-- On a string with a byte, and for a pattern with no more `*` than `max_star_nesting`, the matcher
-- answers true exactly when the pattern matches: the bounded backtracking of `skip_longer_matches`
-- loses no match, and the fuel suffices.
pub glob_match_iff :
    (pat : List ℕ) (c : ℕ) (s : List ℕ) (nocase : Bool)
    → stars pat ≤ max_star_nesting
    → (glob_match pat (c ∷ s) nocase ≡ true) ↔ Matches nocase pat (c ∷ s)
glob_match_iff pat c s nocase few =
    unfold glob_match match_at in
    answer_iff nocase pat (c ∷ s) _ (
      guard-Verdict nocase 0 (match_loop (length pat + 1) nocase 0) pat (c ∷ s) (omega arith)
        (match_loop-Verdict nocase (length pat + 1) 0 pat c s (omega arith) (omega arith)))
