-- ===== src/Pattern.antt =====
-- src/redis/pattern.rs: glob patterns over bytes. What the source writes to its `pat` and `s` is
-- passed on; the flag `skip_longer_matches`, a mutable reference there, is returned beside the
-- answer.
pub mod Bytes
pub mod Matching
pub mod Laws
mod Runs
use invar.Prelude.{
  ℕ, zero, suc, ◌+◌, Bool, true, false, Option, none, some, List, [], ◌∷◌, length, ltb, leb, ◌==◌,
  ◌&&◌, ◌||◌, if◌then◌else◌,
}

abbrev pub max_star_nesting : ℕ
max_star_nesting = 1000

-- `u8::to_ascii_lowercase`
abbrev pub to_ascii_lowercase : ℕ → ℕ
to_ascii_lowercase b = if leb b'A' b && leb b b'Z' then b + 32 else b

abbrev pub fold : Bool → ℕ → ℕ
fold nocase b = if nocase then to_ascii_lowercase b else b

abbrev pub star : ℕ
star = b'*'

-- One member of a class that is a range, its ends in either order.
abbrev pub in_range : Bool → ℕ → ℕ → ℕ → Bool
in_range nocase first last c =
    if ltb last first
    then leb (fold nocase last) (fold nocase c) && leb (fold nocase c) (fold nocase first)
    else leb (fold nocase first) (fold nocase c) && leb (fold nocase c) (fold nocase last)

-- The loop over a class: whether the byte `c` is a member, and the pattern behind the class.
unfoldable pub class_loop : Bool → ℕ → List ℕ → Bool → Bool × List ℕ
class_loop nocase c [] matched = (matched, [])
class_loop nocase c (p ∷ []) matched =
    if p == b']' then (matched, []) else (matched || fold nocase p == fold nocase c, [])
class_loop nocase c (p ∷ q ∷ []) matched =
    let member = class_loop nocase c (q ∷ []) (matched || fold nocase p == fold nocase c) in
    if p == b'\\' then (matched || q == c, []) else if p == b']' then (matched, q ∷ []) else member
class_loop nocase c (p ∷ q ∷ r ∷ rest) matched =
    let escaped = class_loop nocase c (r ∷ rest) (matched || q == c) in
    let range = class_loop nocase c rest (matched || in_range nocase p r c) in
    let member = class_loop nocase c (q ∷ r ∷ rest) (matched || fold nocase p == fold nocase c) in
    if p == b'\\'
    then escaped
    else if p == b']'
    then (matched, q ∷ r ∷ rest)
    else if q == b'-'
    then range
    else member

-- `if matched == negate { return false; }`
abbrev pub unless_equal : Bool → Bool × List ℕ → Option (List ℕ)
unless_equal true (true, rest) = none
unless_equal true (false, rest) = some rest
unless_equal false (true, rest) = some rest
unless_equal false (false, rest) = none

-- A class, behind its `[`.
unfoldable pub match_class : Bool → ℕ → List ℕ → Option (List ℕ)
unfolding class_loop
match_class nocase c [] = unless_equal false (class_loop nocase c [] false)
match_class nocase c (p ∷ pat) =
    if p == b'^'
    then unless_equal true (class_loop nocase c pat false)
    else unless_equal false (class_loop nocase c (p ∷ pat) false)

-- Any other byte `p`, in front of `pat`.
unfoldable pub match_literal : Bool → ℕ → ℕ → List ℕ → Option (List ℕ)
match_literal nocase c p [] = if fold nocase p == fold nocase c then some [] else none
match_literal nocase c p (q ∷ pat) =
    if p == b'\\'
    then (if fold nocase q == fold nocase c then some pat else none)
    else if fold nocase p == fold nocase c
    then some (q ∷ pat)
    else none

-- The arms of the `match` for all but `*`: `none` where the arm returns false, and the pattern
-- that is left where it goes on.
unfoldable pub match_byte : Bool → ℕ → ℕ → List ℕ → Option (List ℕ)
unfolding match_class match_literal
match_byte nocase c p pat =
    if p == b'?'
    then some pat
    else if p == b'['
    then match_class nocase c pat
    else match_literal nocase c p pat

-- `while pat.first() == Some(&b'*')`
unfoldable pub drop_stars : List ℕ → List ℕ
drop_stars [] = []
drop_stars (p ∷ pat) = let rest = drop_stars pat in if p == star then rest else p ∷ pat

abbrev pub is_empty : List ℕ → Bool
is_empty [] = true
is_empty _ = false

-- The answer, and `skip_longer_matches` as the call leaves it.
abbrev pub Answer : Type 0
Answer = Bool × Bool

-- What one attempt of the `*` arm's loop leads to.
abbrev pub retry : Answer → Answer → Answer
retry (true, skip) next = (true, skip)
retry (false, true) next = (false, true)
retry (false, false) next = next

-- `while !s.is_empty()` of the `*` arm.
unfoldable pub expand : (List ℕ → Answer) → List ℕ → Answer
expand attempt [] = (false, true)
expand attempt (c ∷ s) = let next = expand attempt s in retry (attempt (c ∷ s)) next

-- After a byte was matched: the trailing stars go once the string is used up.
abbrev pub go_on : (List ℕ → List ℕ → Answer) → List ℕ → Option (List ℕ) → Answer
go_on loop s none = (false, false)
go_on loop [] (some pat) = (is_empty (drop_stars pat), false)
go_on loop (c ∷ s) (some pat) = loop pat (c ∷ s)

-- The `*` arm: the run of stars is read as one, and a star at the end matches what is left.
abbrev pub match_star : (List ℕ → List ℕ → Answer) → List ℕ → List ℕ → Answer
match_star enter [] s = (true, false)
match_star enter (p ∷ pat) s = expand (enter (p ∷ pat)) s

-- `if nesting > MAX_STAR_NESTING { return false; }`
abbrev pub guard_nesting : ℕ → (List ℕ → List ℕ → Answer) → List ℕ → List ℕ → Answer
guard_nesting nesting loop pat s =
    if ltb max_star_nesting nesting then (false, false) else loop pat s

-- The loop of `match_at`. Every recursive call starts with the flag down, since a raised flag ends
-- all loops that see it. The fuel counts bytes of the pattern, of which every round takes one.
unfoldable pub match_loop : ℕ → Bool → ℕ → List ℕ → List ℕ → Answer
unfolding match_byte drop_stars expand
match_loop zero nocase nesting pat s = (false, false)
match_loop (suc f) nocase nesting [] s = (is_empty s, false)
match_loop (suc f) nocase nesting (p ∷ pat) [] = (false, false)
match_loop (suc f) nocase nesting (p ∷ pat) (c ∷ s) =
    let enter = guard_nesting (suc nesting) (match_loop f nocase (suc nesting)) in
    let starred = match_star enter (drop_stars pat) (c ∷ s) in
    let matched = go_on (match_loop f nocase nesting) s (match_byte nocase c p pat) in
    if p == star then starred else matched

-- `match_at`, with the guard on the nesting.
unfoldable pub match_at : Bool → ℕ → List ℕ → List ℕ → Answer
unfolding match_loop
match_at nocase nesting pat s =
    guard_nesting nesting (match_loop (length pat + 1) nocase nesting) pat s

unfoldable pub glob_match : List ℕ → List ℕ → Bool → Bool
unfolding match_at
glob_match pat s nocase = (match_at nocase 0 pat s).0

pub record GlobPattern : Type 0 where
  pub pattern : List ℕ
  pub nocase : Bool
  pub select_all : Bool

unfoldable pub new : List ℕ → GlobPattern
new pattern = record { pattern = pattern; nocase = false; select_all = false }

-- `pattern.as_ref() == b"*"`
abbrev pub is_lone_star : List ℕ → Bool
is_lone_star [] = false
is_lone_star (p ∷ []) = p == star
is_lone_star (p ∷ q ∷ pat) = false

unfoldable pub keyspace : List ℕ → GlobPattern
keyspace pattern = record { pattern = pattern; nocase = false; select_all = is_lone_star pattern }

unfoldable pub with_nocase : GlobPattern → Bool → GlobPattern
with_nocase g nocase = record g { nocase = nocase }

unfoldable pub is_match : GlobPattern → List ℕ → Bool
unfolding glob_match
is_match g candidate = g.select_all || glob_match g.pattern candidate g.nocase
