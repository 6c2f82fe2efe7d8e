-- ===== src/Pattern/Laws.antt =====
-- What the callers of a pattern rely on.
use mathlib.Core.Bool.{false≢true}
use invar.Prelude.{
  ℕ, zero, suc, ◌+◌, ◌≤◌, ◌≡◌, ◌↔◌, refl, sym, ◌∙◌, Bool, true, false, List, [], ◌∷◌, length, ◌==◌,
  ◌||◌, if◌then◌else◌, arith, some, none, subst, ap, Bool-cases, inl, inr,
}
use invar.Pattern.{
  Answer, max_star_nesting, is_empty, is_lone_star, match_literal, match_byte, match_loop, match_at,
  glob_match, keyspace, new, is_match,
}
use invar.Pattern.Bytes.{stars}
use invar.Pattern.Matching.{Matches, done, leave, take_byte, byte, glob_match_iff}

match_loop_nil :
    (f nesting p : ℕ) (pat : List ℕ) (nocase : Bool)
    → match_loop f nocase nesting (p ∷ pat) [] ≡ (false, false)
unfolding match_loop
match_loop_nil zero nesting p pat nocase = refl
match_loop_nil (suc f) nesting p pat nocase = refl

-- The empty string is matched by the empty pattern alone, not even by `*`.
pub glob_match-nil : (pat : List ℕ) (nocase : Bool) → glob_match pat [] nocase ≡ is_empty pat
glob_match-nil [] nocase = unfold glob_match in refl
glob_match-nil (p ∷ pat) nocase =
    unfold glob_match match_at in
    ap (λ (a : Answer). a.0) (match_loop_nil (length (p ∷ pat) + 1) 0 p pat nocase)

-- `keyspace` differs from `new` on the lone star and the empty name, and nowhere else.
pub is_match-keyspace :
    (pat candidate : List ℕ)
    → is_match (keyspace pat) candidate ≡ (is_lone_star pat || is_match (new pat) candidate)
is_match-keyspace pat candidate = unfold is_match keyspace new in refl

-- Every byte with a backslash in front of it.
pub escape : List ℕ → List ℕ
escape [] = []
escape (b ∷ s) = b'\\' ∷ b ∷ escape s

match_byte_escaped :
    (c b : ℕ) (pat : List ℕ)
    → match_byte false c b'\\' (b ∷ pat) ≡ (if b == c then some pat else none)
match_byte_escaped c b pat = unfold match_byte match_literal in refl

Matches-escape : (s : List ℕ) → Matches false (escape s) s
unfolding escape
Matches-escape [] = done
Matches-escape (b ∷ s) =
    byte {rest = escape s} refl (match_byte_escaped b b (escape s) ∙ ground arith)
      (Matches-escape s)

escape_step :
    (b c : ℕ) (s t rest : List ℕ)
    → match_byte false c b'\\' (b ∷ escape s) ≡ (if b == c then some (escape s) else none)
    → match_byte false c b'\\' (b ∷ escape s) ≡ some rest
    → Matches false rest t
    → (Matches false (escape s) t → s ≡ t)
    → b ∷ s ≡ c ∷ t
escape_step b c s t rest all e h ih = elim (Bool-cases (b == c)) [
  | inl same ↦
      let left : escape s ≡ rest = ground (arith, all, e) in
      let tails : s ≡ t = ih (subst (λ (l : List ℕ). Matches false l t) (sym left) h) in
      ground (arith, tails)
  | inr other ↦ absurd (false≢true (ground (arith, all, e)))
]

escape-Matches : (s t : List ℕ) → Matches false (escape s) t → s ≡ t
unfolding escape
escape-Matches [] [] h = refl
escape-Matches [] (c ∷ t) h = elim h [ ]
escape-Matches (b ∷ s) [] (leave x h) = cc
escape-Matches (b ∷ s) (c ∷ t) (leave x h) = cc
escape-Matches (b ∷ s) (c ∷ t) (take_byte x h) = cc
escape-Matches (b ∷ s) (c ∷ t) (byte {rest = r} x e h) =
    escape_step b c s t r (match_byte_escaped c b (escape s)) e h λ k. escape-Matches s t k

stars-escape : (s : List ℕ) → stars (escape s) ≡ stars s
unfolding escape
stars-escape [] = refl
stars-escape (b ∷ s) = ground (arith, stars-escape s)

is_empty-escape : (b : ℕ) (s : List ℕ) → is_empty (escape (b ∷ s)) ≡ false
unfolding escape
is_empty-escape b s = refl

-- Where case counts, an escaped string with at most `max_star_nesting` stars in it matches itself and
-- nothing else, the empty string included.
pub glob_match-escape :
    (s t : List ℕ) → stars s ≤ max_star_nesting → (glob_match (escape s) t false ≡ true) ↔ (s ≡ t)
glob_match-escape [] [] few = (λ e. refl, λ e. unfold escape in glob_match-nil [] false)
glob_match-escape (b ∷ s) [] few = (
  λ e. absurd (false≢true (sym (glob_match-nil (escape (b ∷ s)) false ∙ is_empty-escape b s) ∙ e)),
  λ e. cc,
)
glob_match-escape s (c ∷ t) few =
    let (to, from) = glob_match_iff (escape s) c t false (omega (arith, stars-escape s)) in
    (
      λ e. escape-Matches s (c ∷ t) (to e),
      λ e. from (subst (Matches false (escape s)) e (Matches-escape s)),
    )
