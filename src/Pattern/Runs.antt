-- ===== src/Pattern/Runs.antt =====
-- Patterns of the source's unit tests.
use invar.Prelude.{◌≡◌, refl, true, false, [], ◌∷◌}
use invar.Pattern.{glob_match}

-- a*b?c against axxbzc
star_run :
    glob_match (97 ∷ b'*' ∷ 98 ∷ b'?' ∷ 99 ∷ []) (97 ∷ 120 ∷ 120 ∷ 98 ∷ 122 ∷ 99 ∷ []) false ≡ true
unfolding glob_match
star_run = refl

-- [z-a]\* against m*, and [^a] against a
class_run :
    glob_match (b'[' ∷ 122 ∷ b'-' ∷ 97 ∷ b']' ∷ b'\\' ∷ b'*' ∷ []) (109 ∷ b'*' ∷ []) false ≡ true
unfolding glob_match
class_run = refl

negated_run : glob_match (b'[' ∷ b'^' ∷ 97 ∷ b']' ∷ []) (97 ∷ []) false ≡ false
unfolding glob_match
negated_run = refl
