-- ===== src/Chain/Commands/Ranges.antt =====
-- The elements that a range or an index of a list command stands for, and what the code makes of both.
use invar.Prelude.{
  ℕ, zero, suc, ◌+◌, ◌-◌, ◌<◌, ◌≤◌, ◌≡◌, ◌∙◌, refl, sym, ap, Bool, true, false, Bool-cases, inl,
  inr, Option, none, some, List, [], ◌∷◌, length, take, drop, get_elem?, ltb, leb, ◌==◌, ◌||◌, ◌&&◌,
  if◌then◌else◌, Bytes, arith,
}
use invar.Prelude.Int.{ℤ, pos, negsuc, sub_ℕ}
use invar.Bitmap.{bit_range, range_start, range_end, range_between}
use invar.Chain.Commands.{list_range, list_index}

-- Whether an index is not before, or not behind, a bound: -1 is the last of the elements, -2 the one
-- before it, and so on.
abbrev pub from_bound : ℤ → ℕ → ℕ → Bool
from_bound (pos n) total i = leb n i
from_bound (negsuc n) total i = leb total (i + suc n)

abbrev pub to_bound : ℤ → ℕ → ℕ → Bool
to_bound (pos n) total i = leb i n
to_bound (negsuc n) total i = leb (i + suc n) total

abbrev pub within_bounds : ℤ → ℤ → ℕ → ℕ → Bool
within_bounds start stop total i = from_bound start total i && to_bound stop total i

-- The values whose indices pass a test, `i` being the index of the first.
abbrev pub select : (ℕ → Bool) → ℕ → List Bytes → List Bytes
select test i [] = []
select test i (v ∷ vs) = let rest = select test (i + 1) vs in if test i then v ∷ rest else rest

-- The values of a range.
pub slice : ℤ → ℤ → List Bytes → List Bytes
slice start stop vs = select (within_bounds start stop (length vs)) 0 vs

-- The value that `n` others stand behind.
abbrev pub from_last : ℕ → List Bytes → Option Bytes
from_last n [] = none
from_last n (v ∷ vs) = let rest = from_last n vs in if length vs == n then some v else rest

-- The value at an index, from the first one or from the last one.
abbrev pub at_index : ℤ → List Bytes → Option Bytes
at_index (pos n) vs = get_elem? vs n
at_index (negsuc n) vs = from_last n vs

in_range : Option (ℕ × ℕ) → ℕ → Bool
in_range none i = false
in_range (some (first, last)) i = leb first i && leb i last

select_same :
    (test test' : ℕ → Bool) (total i : ℕ) (vs : List Bytes)
    → ((j : ℕ) → j < total → test j ≡ test' j)
    → i + length vs ≡ total
    → select test i vs ≡ select test' i vs
select_same test test' total i [] same all = refl
select_same test test' total i (v ∷ vs) same all =
    rw (same i (omega arith), select_same test test' total (i + 1) vs same (omega arith)) refl

select-none : (i : ℕ) (vs : List Bytes) → select (in_range none) i vs ≡ []
unfolding in_range
select-none i [] = refl
select-none i (v ∷ vs) = select-none (i + 1) vs

select_cut :
    (first last i a b : ℕ) (vs : List Bytes)
    → b ≡ first - i
    → a + b ≡ last + 1 - i
    → select (in_range (some (first, last))) i vs ≡ take a (drop b vs)
unfolding in_range
select_cut first last i zero zero [] hb ha = refl
select_cut first last i zero (suc b) [] hb ha = refl
select_cut first last i (suc a) zero [] hb ha = refl
select_cut first last i (suc a) (suc b) [] hb ha = refl
select_cut first last i a (suc b) (v ∷ vs) hb ha =
    let out : (leb first i && leb i last) ≡ false = ground arith in
    rw out (select_cut first last (i + 1) a b vs (omega arith) (omega arith))
select_cut first last i zero zero (v ∷ vs) hb ha =
    let out : (leb first i && leb i last) ≡ false = ground arith in
    rw out (select_cut first last (i + 1) zero zero vs (omega arith) (omega arith))
select_cut first last i (suc a) zero (v ∷ vs) hb ha =
    let inside : (leb first i && leb i last) ≡ true = ground arith in
    rw inside
      (ap (λ t. v ∷ t) (select_cut first last (i + 1) a zero vs (omega arith) (omega arith)))

start_test : (start : ℤ) (total i : ℕ) → from_bound start total i ≡ leb (range_start start total) i
unfolding range_start
start_test (pos m) total i = refl
start_test (negsuc m) total i = ground arith

not_past : ℤ → ℕ → Bool
not_past (pos e) i = leb i e
not_past (negsuc e) i = false

not_past-sub_ℕ :
    (total n i : ℕ) → i < total → not_past (sub_ℕ total (suc n)) i ≡ leb (i + suc n) total
unfolding not_past
not_past-sub_ℕ total n i h = elim (Bool-cases (leb (suc n) total)) [
  | inl e ↦ rw e (ground arith)
  | inr e ↦ rw e (ground arith)
]

stop_test :
    (stop : ℤ) (total i : ℕ) → i < total → to_bound stop total i ≡ not_past (range_end stop total) i
unfolding range_end
stop_test (negsuc n) total i h = sym (not_past-sub_ℕ total n i h)
stop_test (pos n) total i h = elim (Bool-cases (leb total n)) [
  | inl e ↦
      let last : leb (i + 1) total ≡ true = ground arith in
      rw e (
        let within : leb i n ≡ true = ground arith in
        rw (within, not_past-sub_ℕ total 0 i h, last) refl)
  | inr e ↦ rw e (unfold not_past in refl)
]

between_test :
    (start : ℕ) (end : ℤ) (total i : ℕ)
    → i < total
    → in_range (range_between start end total) i ≡ (leb start i && not_past end i)
unfolding in_range not_past
between_test start (negsuc n) total i h = ground arith
between_test start (pos n) total i h = elim (Bool-cases (ltb n start || leb total start)) [
  | inl e ↦ rw e (ground arith)
  | inr e ↦ rw e refl
]

range_tests :
    (start stop : ℤ) (total i : ℕ)
    → i < total
    → within_bounds start stop total i ≡ in_range (list_range start stop total) i
unfolding list_range bit_range
range_tests start stop total i h =
    rw (start_test start total i, stop_test stop total i h)
      (sym (between_test (range_start start total) (range_end stop total) total i h))

selected :
    (start stop : ℤ) (vs : List Bytes)
    → slice start stop vs ≡ select (in_range (list_range start stop (length vs))) 0 vs
unfolding slice
selected start stop vs =
    select_same (within_bounds start stop (length vs))
      (in_range (list_range start stop (length vs))) (length vs) 0 vs
      (range_tests start stop (length vs)) (omega arith)

-- The range that the code computes cuts out the values of the range.
pub slice_empty :
    (start stop : ℤ) (vs : List Bytes)
    → list_range start stop (length vs) ≡ none
    → slice start stop vs ≡ []
slice_empty start stop vs h =
    selected start stop vs ∙ ap (λ o. select (in_range o) 0 vs) h ∙ select-none 0 vs

pub slice_found :
    (start stop : ℤ) (vs : List Bytes) (first last : ℕ)
    → list_range start stop (length vs) ≡ some (first, last)
    → first ≤ last
    → slice start stop vs ≡ take (last - first + 1) (drop first vs)
slice_found start stop vs first last h ordered =
    selected start stop vs
    ∙ ap (λ o. select (in_range o) 0 vs) h
    ∙ select_cut first last 0 (last - first + 1) first vs (omega arith) (omega arith)

get_elem?_past : (vs : List Bytes) (n : ℕ) → length vs ≤ n → get_elem? vs n ≡ none
get_elem?_past [] n h = refl
get_elem?_past (v ∷ vs) zero h = absurd (omega arith)
get_elem?_past (v ∷ vs) (suc n) h = get_elem?_past vs n (omega arith)

from_last_past : (n : ℕ) (vs : List Bytes) → length vs ≤ n → from_last n vs ≡ none
from_last_past n [] h = refl
from_last_past n (v ∷ vs) h =
    let short : (length vs == n) ≡ false = ground arith in
    rw short (from_last_past n vs (omega arith))

from_last_found :
    (n : ℕ) (vs : List Bytes) → n < length vs → get_elem? vs (length vs - suc n) ≡ from_last n vs
from_last_found n [] h = absurd (omega arith)
from_last_found n (v ∷ vs) h = elim (Bool-cases (length vs == n)) [
  | inl e ↦ let front : suc (length vs) - suc n ≡ 0 = ground arith in rw (e, front) refl
  | inr e ↦
      let more : n < length vs = ground arith in
      let behind : suc (length vs) - suc n ≡ suc (length vs - suc n) = omega (arith, more) in
      rw (e, behind) (from_last_found n vs more)
]

-- The index that the code computes is that of the value.
pub at_index_found :
    (index : ℤ) (vs : List Bytes)
    → elim (list_index index (length vs)) [ none ↦ none | some i ↦ get_elem? vs i ]
      ≡ at_index index vs
unfolding list_index
at_index_found (pos n) vs = elim (Bool-cases (ltb n (length vs))) [
  | inl e ↦ rw e refl
  | inr e ↦ rw e (sym (get_elem?_past vs n (ground arith)))
]
at_index_found (negsuc n) vs = elim (Bool-cases (leb (suc n) (length vs))) [
  | inl e ↦ rw e (from_last_found n vs (ground arith))
  | inr e ↦ rw e (sym (from_last_past n vs (ground arith)))
]

-- A range that the code computes lies within the elements.
abbrev pub Inside : ℕ → Option (ℕ × ℕ) → Type 0
Inside total none = Unit {0}
Inside total (some (first, last)) = (first ≤ last) × (last < total)

IsBelow : ℕ → ℤ → Type 0
IsBelow total (negsuc n) = Unit {0}
IsBelow total (pos n) = n < total

sub_ℕ-IsBelow : (total n : ℕ) → IsBelow total (sub_ℕ total (suc n))
unfolding IsBelow
sub_ℕ-IsBelow total n = elim (Bool-cases (leb (suc n) total)) [
  | inl e ↦ rw e (ground arith)
  | inr e ↦ rw e tt
]

range_end-IsBelow : (end : ℤ) (total : ℕ) → IsBelow total (range_end end total)
unfolding range_end
range_end-IsBelow (negsuc n) total = sub_ℕ-IsBelow total n
range_end-IsBelow (pos n) total = elim (Bool-cases (leb total n)) [
  | inl e ↦ rw e (sub_ℕ-IsBelow total 0)
  | inr e ↦ rw e (unfold IsBelow in ground arith)
]

range_between-Inside :
    (start : ℕ) (end : ℤ) (total : ℕ)
    → IsBelow total end
    → Inside total (range_between start end total)
unfolding IsBelow
range_between-Inside start (negsuc n) total h = tt
range_between-Inside start (pos end) total h =
    elim (Bool-cases (ltb end start || leb total start)) [
      | inl e ↦ rw e tt
      | inr e ↦ rw e (ground arith, h)
    ]

pub list_range-Inside : (start stop : ℤ) (total : ℕ) → Inside total (list_range start stop total)
unfolding list_range bit_range
list_range-Inside start stop total =
    range_between-Inside (range_start start total) (range_end stop total) total
      (range_end-IsBelow stop total)

pub slice-nil : (start stop : ℤ) → slice start stop [] ≡ []
unfolding slice
slice-nil start stop = refl

pub at_index-nil : (index : ℤ) → at_index index [] ≡ none
at_index-nil (pos n) = refl
at_index-nil (negsuc n) = refl
