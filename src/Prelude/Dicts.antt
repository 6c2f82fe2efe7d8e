-- ===== src/Prelude/Dicts.antt =====
-- Maps from byte strings, as lists of their entries: the first entry of a key counts.
use Prim.Native.Nat.{suc, ◌≤◌}
use mathlib.Core.Path.{◌≡◌, refl, sym, ap}
use mathlib.Core.Bool.{Bool, true, false}
use mathlib.Core.Option.{Option, none, some}
use mathlib.Core.Option
use mathlib.Core.List.{List, [], ◌∷◌}
use mathlib.Core.Logic.{inl, inr}
use native.Mathlib.Omega.{arith}
use invar.Prelude.Tests.{if◌then◌else◌, Bool-cases}
use invar.Prelude.Lists.{length}
use invar.Prelude.ByteStrings.{Bytes, bytes_eq, bytes_eq→eq, bytes_eq_refl}

abbrev pub Dict : Type 0 → Type 0
Dict A = List (Bytes × A)

-- A key that differs from one byte string differs from one equal to it.
apart_trans : (k j i : Bytes) → bytes_eq j i ≡ true → bytes_eq k j ≡ false → bytes_eq k i ≡ false
apart_trans k j i same apart = rw (sym (ap (bytes_eq k) (bytes_eq→eq j i same))) apart

module _ {A : Type 0} where
  unfoldable pub lookup : Bytes → Dict A → Option A
  lookup k [] = none
  lookup k ((j, a) ∷ m) = if bytes_eq k j then some a else lookup k m

  -- `HashMap::remove`
  unfoldable pub erase : Bytes → Dict A → Dict A
  erase k [] = []
  erase k ((j, a) ∷ m) = let rest = erase k m in if bytes_eq k j then rest else (j, a) ∷ rest

  -- `HashMap::insert`
  unfoldable pub put : Bytes → A → Dict A → Dict A
  unfolding erase
  put k a m = (k, a) ∷ erase k m

  -- A change through `HashMap::get_mut`.
  unfoldable pub adjust : Bytes → (A → A) → Dict A → Dict A
  adjust k f [] = []
  adjust k f ((j, a) ∷ m) =
      let rest = adjust k f m in if bytes_eq k j then (j, f a) ∷ m else (j, a) ∷ rest

  unfoldable pub has_key : Bytes → Dict A → Bool
  unfolding lookup
  has_key k m = elim (lookup k m) [ none ↦ false | some a ↦ true ]

  pub lookup-put_self : (k : Bytes) (a : A) (m : Dict A) → lookup k (put k a m) ≡ some a
  unfolding lookup put
  lookup-put_self k a m = rw (bytes_eq_refl k) refl

  pub lookup-erase_self : (k : Bytes) (m : Dict A) → lookup k (erase k m) ≡ none
  unfolding lookup erase
  lookup-erase_self k [] = refl
  lookup-erase_self k ((j, a) ∷ m) = elim (Bool-cases (bytes_eq k j)) [
    | inl e ↦ rw e (lookup-erase_self k m)
    | inr e ↦ rw e (rw e (lookup-erase_self k m))
  ]

  pub lookup-erase_ne :
      (k j : Bytes) (m : Dict A) → bytes_eq j k ≡ false → lookup j (erase k m) ≡ lookup j m
  unfolding lookup erase
  lookup-erase_ne k j [] h = refl
  lookup-erase_ne k j ((i, a) ∷ m) h = ground (arith, lookup-erase_ne k j m h, apart_trans j k i)

  pub lookup-put_ne :
      (k j : Bytes) (a : A) (m : Dict A) → bytes_eq j k ≡ false → lookup j (put k a m) ≡ lookup j m
  unfolding lookup put
  lookup-put_ne k j a m h = rw h (lookup-erase_ne k j m h)

  pub lookup-adjust_self :
      (k : Bytes) (f : A → A) (a : A) (m : Dict A)
      → lookup k m ≡ some a
      → lookup k (adjust k f m) ≡ some (f a)
  unfolding lookup adjust
  lookup-adjust_self k f a [] h = cc
  lookup-adjust_self k f a ((i, b) ∷ m) h = elim (Bool-cases (bytes_eq k i)) [
    | inl e ↦ rw e (rw e (ap (Option.map f) (rw e at h)))
    | inr e ↦ rw e (rw e (lookup-adjust_self k f a m (rw e at h)))
  ]

  pub lookup-adjust_ne :
      (k j : Bytes) (f : A → A) (m : Dict A)
      → bytes_eq j k ≡ false
      → lookup j (adjust k f m) ≡ lookup j m
  unfolding lookup adjust
  lookup-adjust_ne k j f [] h = refl
  lookup-adjust_ne k j f ((i, a) ∷ m) h =
      ground (arith, lookup-adjust_ne k j f m h, apart_trans j k i)

  pub lookup-adjust-none :
      (k j : Bytes) (f : A → A) (m : Dict A) → lookup j m ≡ none → lookup j (adjust k f m) ≡ none
  unfolding lookup adjust
  lookup-adjust-none k j f [] h = refl
  lookup-adjust-none k j f ((i, a) ∷ m) h = ground (arith, lookup-adjust-none k j f m)

  -- An entry that is taken out leaves fewer.
  pub length-erase_le : (k : Bytes) (m : Dict A) → length (erase k m) ≤ length m
  unfolding erase
  length-erase_le k [] = omega arith
  length-erase_le k ((j, a) ∷ m) = ground (arith, length-erase_le k m)

  pub length-erase_lt :
      (k : Bytes) (a : A) (m : Dict A) → lookup k m ≡ some a → suc (length (erase k m)) ≤ length m
  unfolding lookup erase
  length-erase_lt k a [] h = cc
  length-erase_lt k a ((j, b) ∷ m) h = ground (arith, length-erase_lt k a m, length-erase_le k m)
