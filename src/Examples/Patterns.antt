-- ===== src/Examples/Patterns.antt =====
-- The matcher of src/redis/pattern.rs on concrete patterns.
use invar.Prelude.{ℕ, ◌≡◌, ◌↔◌, true, false, List, [], ◌∷◌, arith}
use invar.Pattern.{glob_match}
use invar.Pattern.Matching.{Matches, glob_match_iff}
use invar.Pattern.Laws.{escape, glob_match-escape}

-- a*b?c
abbrev pattern_ : List ℕ
pattern_ = 97 ∷ b'*' ∷ 98 ∷ b'?' ∷ 99 ∷ []

-- axxbzc
abbrev name : List ℕ
name = 120 ∷ 120 ∷ 98 ∷ 122 ∷ 99 ∷ []

glob_match_iff_example :
    (glob_match pattern_ (97 ∷ name) false ≡ true) ↔ Matches false pattern_ (97 ∷ name)
glob_match_iff_example = glob_match_iff pattern_ 97 name false (omega arith)

glob_match-escape_example :
    (glob_match (escape pattern_) pattern_ false ≡ true) ↔ (pattern_ ≡ pattern_)
glob_match-escape_example = glob_match-escape pattern_ pattern_ (omega arith)
