-- ===== src/Pattern/Bytes.antt =====
-- One byte of the string against the front of a pattern.
use invar.Prelude.{
  ℕ, suc, ◌≤◌, ◌≡◌, refl, Bool, true, false, some, List, [], ◌∷◌, length, ◌==◌, ◌||◌, if◌then◌else◌,
  arith, Bool-cases, inl, inr, ◌⊎◌,
}
use invar.Pattern.{
  fold, in_range, star, class_loop, unless_equal, match_class, match_literal, match_byte,
}

-- How many `*` bytes a pattern holds, the escaped ones included.
abbrev pub stars : List ℕ → ℕ
stars [] = 0
stars (p ∷ pat) = if p == star then suc (stars pat) else stars pat

-- No longer than a pattern, and with no more stars.
abbrev pub IsWithin : List ℕ → List ℕ → Type 0
IsWithin rest pat = (length rest ≤ length pat) × (stars rest ≤ stars pat)

class_loop-IsWithin :
    (nocase : Bool) (c : ℕ) (pat : List ℕ) (matched : Bool)
    → IsWithin (class_loop nocase c pat matched).1 pat
unfolding class_loop
class_loop-IsWithin nocase c [] m = omega arith
class_loop-IsWithin nocase c (p ∷ []) m = ground arith
class_loop-IsWithin nocase c (p ∷ q ∷ []) m =
    ground (arith, class_loop-IsWithin nocase c (q ∷ []) (m || fold nocase p == fold nocase c))
class_loop-IsWithin nocase c (p ∷ q ∷ r ∷ rest) m = ground (
  arith,
  class_loop-IsWithin nocase c (r ∷ rest) (m || q == c),
  class_loop-IsWithin nocase c rest (m || in_range nocase p r c),
  class_loop-IsWithin nocase c (q ∷ r ∷ rest) (m || fold nocase p == fold nocase c),
)

-- Where a class ends does not depend on the byte.
class_loop_end :
    (nocase : Bool) (c d : ℕ) (pat : List ℕ) (m m' : Bool)
    → (class_loop nocase c pat m).1 ≡ (class_loop nocase d pat m').1
unfolding class_loop
class_loop_end nocase c d [] m m' = refl
class_loop_end nocase c d (p ∷ []) m m' = ground arith
class_loop_end nocase c d (p ∷ q ∷ []) m m' = ground (
  arith,
  class_loop_end nocase c d (q ∷ []) (m || fold nocase p == fold nocase c)
      (m' || fold nocase p == fold nocase d),
)
class_loop_end nocase c d (p ∷ q ∷ r ∷ rest) m m' = ground (
  arith,
  class_loop_end nocase c d (r ∷ rest) (m || q == c) (m' || q == d),
  class_loop_end nocase c d rest (m || in_range nocase p r c) (m' || in_range nocase p r d),
  class_loop_end nocase c d (q ∷ r ∷ rest) (m || fold nocase p == fold nocase c)
      (m' || fold nocase p == fold nocase d),
)

unless_equal-some :
    (negate : Bool) (x : Bool × List ℕ) (rest : List ℕ)
    → unless_equal negate x ≡ some rest
    → x.1 ≡ rest
unless_equal-some true (true, r) rest h = cc
unless_equal-some true (false, r) rest h = cc
unless_equal-some false (true, r) rest h = cc
unless_equal-some false (false, r) rest h = cc

-- The two forms of a class, by what it ends with.
class_end_of :
    (nocase : Bool) (c p : ℕ) (pat rest : List ℕ)
    → match_class nocase c (p ∷ pat) ≡ some rest
    → ((p == b'^') ≡ true) × ((class_loop nocase c pat false).1 ≡ rest)
      ⊎ ((p == b'^') ≡ false) × ((class_loop nocase c (p ∷ pat) false).1 ≡ rest)
class_end_of nocase c p pat rest h = elim (Bool-cases (p == b'^')) [
  | inl e ↦ inl (e, unless_equal-some true (class_loop nocase c pat false) rest (caret e))
  | inr e ↦ inr (e, unless_equal-some false (class_loop nocase c (p ∷ pat) false) rest (plain e))
]
  where
    caret : (p == b'^') ≡ true → unless_equal true (class_loop nocase c pat false) ≡ some rest
    caret e = unfold match_class in (rw e at h)

    plain :
        (p == b'^') ≡ false → unless_equal false (class_loop nocase c (p ∷ pat) false) ≡ some rest
    plain e = unfold match_class in (rw e at h)

match_byte_cases :
    (nocase : Bool) (c p : ℕ) (pat : List ℕ)
    → match_byte nocase c p pat ≡ (
        if p == b'?'
        then some pat
        else if p == b'['
        then match_class nocase c pat
        else match_literal nocase c p pat)
match_byte_cases nocase c p pat = unfold match_byte in refl

match_class-IsWithin :
    (nocase : Bool) (c : ℕ) (pat rest : List ℕ)
    → match_class nocase c pat ≡ some rest
    → IsWithin rest pat
match_class-IsWithin nocase c [] rest h = unfold match_class class_loop in ground arith
match_class-IsWithin nocase c (p ∷ pat) rest h = ground (
  arith,
  class_end_of nocase c p pat rest h,
  class_loop-IsWithin nocase c pat false,
  class_loop-IsWithin nocase c (p ∷ pat) false,
)

match_literal-IsWithin :
    (nocase : Bool) (c p : ℕ) (pat rest : List ℕ)
    → match_literal nocase c p pat ≡ some rest
    → IsWithin rest pat
unfolding match_literal
match_literal-IsWithin nocase c p [] rest h = ground arith
match_literal-IsWithin nocase c p (q ∷ pat) rest h = ground arith

pub match_byte-IsWithin :
    (nocase : Bool) (c p : ℕ) (pat rest : List ℕ)
    → match_byte nocase c p pat ≡ some rest
    → IsWithin rest pat
match_byte-IsWithin nocase c p pat rest h = ground (
  arith,
  match_byte_cases nocase c p pat,
  match_class-IsWithin nocase c pat rest,
  match_literal-IsWithin nocase c p pat rest,
)

match_literal_rest :
    (nocase : Bool) (c d p : ℕ) (pat rest rest' : List ℕ)
    → match_literal nocase c p pat ≡ some rest
    → match_literal nocase d p pat ≡ some rest'
    → rest ≡ rest'
unfolding match_literal
match_literal_rest nocase c d p [] rest rest' h k = ground arith
match_literal_rest nocase c d p (q ∷ pat) rest rest' h k = ground arith

match_class_rest :
    (nocase : Bool) (c d : ℕ) (pat rest rest' : List ℕ)
    → match_class nocase c pat ≡ some rest
    → match_class nocase d pat ≡ some rest'
    → rest ≡ rest'
match_class_rest nocase c d [] rest rest' h k = unfold match_class class_loop in ground arith
match_class_rest nocase c d (p ∷ pat) rest rest' h k = ground (
  arith,
  class_end_of nocase c p pat rest h,
  class_end_of nocase d p pat rest' k,
  class_loop_end nocase c d pat false false,
  class_loop_end nocase c d (p ∷ pat) false false,
)

-- So what is left of the pattern does not depend on the byte that was matched.
pub match_byte_rest :
    (nocase : Bool) (c d p : ℕ) (pat rest rest' : List ℕ)
    → match_byte nocase c p pat ≡ some rest
    → match_byte nocase d p pat ≡ some rest'
    → rest ≡ rest'
match_byte_rest nocase c d p pat rest rest' h k = ground (
  arith,
  match_byte_cases nocase c p pat,
  match_byte_cases nocase d p pat,
  match_class_rest nocase c d pat rest rest',
  match_literal_rest nocase c d p pat rest rest',
)
