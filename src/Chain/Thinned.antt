-- ===== src/Chain/Thinned.antt =====
-- Elements that are left of a sequence, and a sequence turned round.
use invar.Prelude.{
  ℕ, ◌+◌, ◌≡◌, ◌∙◌, refl, sym, ap, subst, Bool, true, false, Option, none, some, List, [], ◌∷◌,
  ◌++◌, All, length, append-nil, Bytes, bytes_eq, ltb, ◌==◌, ◌||◌, ◌&&◌, if◌then◌else◌, arith,
}
use mathlib.Core.List.{reverse, reverse_aux}
use invar.Prelude.Dicts.{Dict, has_key}
use invar.Chain.{ListNode, find_key}
use invar.Chain.Segments.{Element, first_key, last_key, Stretch, IsFresh, Distinct}
use invar.Chain.Represent.{keys_of, last_key-snoc, middle-Distinct}
use invar.Chain.Matches.{without_matching}

-- The first list is the second one without some elements.
pub data Thinned : List Element → List Element → Type 0 where
  nothing : Thinned [] []
  without : {x : Element} {xs ys : List Element} → Thinned xs ys → Thinned xs (x ∷ ys)
  with_same : {x : Element} {xs ys : List Element} → Thinned xs ys → Thinned (x ∷ xs) (x ∷ ys)

pub reverse_aux-Thinned :
    {xs ys us ws : List Element}
    → Thinned xs ys
    → Thinned us ws
    → Thinned (reverse_aux xs us) (reverse_aux ys ws)
reverse_aux-Thinned nothing rest = rest
reverse_aux-Thinned (without h) rest = reverse_aux-Thinned h (without rest)
reverse_aux-Thinned (with_same h) rest = reverse_aux-Thinned h (with_same rest)

IsFresh-Thinned : {xs ys : List Element} (k : Bytes) → Thinned xs ys → IsFresh k ys → IsFresh k xs
IsFresh-Thinned k nothing h = tt
IsFresh-Thinned k (without t) (ne, h) = IsFresh-Thinned k t h
IsFresh-Thinned k (with_same t) (ne, h) = (ne, IsFresh-Thinned k t h)

pub without_matching-Thinned :
    (limit : ℕ) (value : Bytes) (count : ℕ) (xs : List Element)
    → Thinned (without_matching limit value count xs) xs
unfolding without_matching
without_matching-Thinned limit value count [] = nothing
without_matching-Thinned limit value count ((k, v) ∷ xs) =
    by_test (bytes_eq v value && (limit == 0 || ltb count limit))
      (without_matching-Thinned limit value (count + 1) xs)
      (without_matching-Thinned limit value count xs)
  where
    by_test :
        (b : Bool) {us ws : List Element}
        → Thinned us xs
        → Thinned ws xs
        → Thinned (if b then us else (k, v) ∷ ws) ((k, v) ∷ xs)
    by_test true f g = without f
    by_test false f g = with_same g

-- The search for the first key that is left finds the first element that is left.
pub find_key-Thinned :
    (test : Bytes → Bool) {rs xs : List Element}
    → Thinned rs xs
    → Distinct xs
    → All (λ (x : Element). test x.0 ≡ true) rs
    → ((k : Bytes) → IsFresh k rs → test k ≡ false)
    → find_key test (keys_of xs) ≡ first_key rs none
unfolding find_key
find_key-Thinned test nothing d here gone = refl
find_key-Thinned test (without {x} h) (fresh, d) here gone =
    rw (gone x.0 (IsFresh-Thinned x.0 h fresh)) (find_key-Thinned test h d here gone)
find_key-Thinned test (with_same h) d (first, here) gone = rw first refl

pub present_keys :
    (m : Dict ListNode) (prev : Option Bytes) (xs : List Element) (next : Option Bytes)
    → Stretch m prev xs next
    → All (λ (x : Element). has_key x.0 m ≡ true) xs
present_keys m prev [] next h = tt
present_keys m prev ((k, v) ∷ xs) next (here, rest) =
    (unfold has_key in rw (has_key, here) refl, present_keys m (some k) xs next rest)

pub reverse_aux-split :
    (xs us ws : List Element) → reverse_aux xs (us ++ ws) ≡ reverse_aux xs us ++ ws
reverse_aux-split [] us ws = refl
reverse_aux-split (x ∷ xs) us ws = reverse_aux-split xs (x ∷ us) ws

reverse_aux_twice :
    (xs us ys : List Element) → reverse_aux (reverse_aux xs us) ys ≡ reverse_aux us (xs ++ ys)
reverse_aux_twice [] us ys = refl
reverse_aux_twice (x ∷ xs) us ys = reverse_aux_twice xs (x ∷ us) ys

keys_of-reverse_aux :
    (xs ys : List Element) → keys_of (reverse_aux xs ys) ≡ reverse_aux (keys_of xs) (keys_of ys)
keys_of-reverse_aux [] ys = refl
keys_of-reverse_aux (x ∷ xs) ys = keys_of-reverse_aux xs (x ∷ ys)

pub last_key-reverse : (xs : List Element) → last_key none (reverse xs) ≡ first_key xs none
last_key-reverse [] = refl
last_key-reverse ((k, v) ∷ xs) =
    ap (last_key none) (reverse_aux-split xs [] ((k, v) ∷ [])) ∙ last_key-snoc none (reverse xs) k v

pub length-reverse_aux : (xs ys : List Element) → length (reverse_aux xs ys) ≡ length xs + length ys
length-reverse_aux [] ys = omega arith
length-reverse_aux (x ∷ xs) ys = omega (arith, length-reverse_aux xs (x ∷ ys))

pub reverse_keys : (xs : List Element) → reverse (keys_of xs) ≡ keys_of (reverse xs)
reverse_keys xs = sym (keys_of-reverse_aux xs [])

pub reverse_twice : (xs : List Element) → reverse (reverse xs) ≡ xs
reverse_twice xs = reverse_aux_twice xs [] [] ∙ append-nil xs

pub All-reverse_aux :
    (P : Element → Type 0) (xs ys : List Element) → All P xs → All P ys → All P (reverse_aux xs ys)
All-reverse_aux P [] ys h g = g
All-reverse_aux P (x ∷ xs) ys (here, h) g = All-reverse_aux P xs (x ∷ ys) h (here, g)

pub reverse-Distinct : (xs : List Element) → Distinct xs → Distinct (reverse xs)
reverse-Distinct [] d = tt
reverse-Distinct ((k, v) ∷ xs) (fresh, d) =
    subst Distinct (sym (reverse_aux-split xs [] ((k, v) ∷ []))) (
      middle-Distinct (reverse xs) k v [] (rw (append-nil (reverse xs)) (reverse-Distinct xs d)) (
        rw (append-nil (reverse xs))
          (All-reverse_aux (λ x. bytes_eq k x.0 ≡ false) xs [] fresh tt)))
