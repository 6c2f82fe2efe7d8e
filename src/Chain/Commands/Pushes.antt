-- ===== src/Chain/Commands/Pushes.antt =====
-- What the loop of a push leaves in the list.
use invar.Prelude.{
  ◌+◌, ◌^◌, ◌<◌, ◌≡◌, sym, subst, Bool, true, false, List, [], ◌∷◌, ◌++◌, length, length-append,
  append-nil, append_assoc, if◌then◌else◌, arith,
}
use invar.Chain.{Linked, add_first, add_last}
use invar.Chain.Segments.{Element, IsFresh, Distinct}
use invar.Chain.Represent.{Represents, IsFresh-append, middle-Distinct}
use invar.Chain.Ends.{add_first-Represents, add_last-Represents}
use invar.Chain.Commands.{push_all}

-- The values pushed one after the other to the front.
pub onto_front : List Element → List Element → List Element
onto_front [] xs = xs
onto_front (v ∷ vs) xs = onto_front vs (v ∷ xs)

-- The first of the new elements may be moved behind the rest, in front of the list or behind it.
moved_last :
    (v : Element) (vs xs : List Element)
    → Distinct (v ∷ (vs ++ xs))
    → Distinct (vs ++ (xs ++ v ∷ []))
moved_last (k, v) vs xs (fresh, d) = subst Distinct (append_assoc vs xs ((k, v) ∷ [])) (
    middle-Distinct (vs ++ xs) k v [] (subst Distinct (sym (append-nil (vs ++ xs))) d)
      (subst (IsFresh k) (sym (append-nil (vs ++ xs))) fresh))

moved_between :
    (v : Element) (vs xs : List Element) → Distinct (v ∷ (vs ++ xs)) → Distinct (vs ++ v ∷ xs)
moved_between (k, v) vs xs (fresh, d) = middle-Distinct vs k v xs d fresh

tail_pushed :
    (values xs : List Element) (ll : Linked)
    → Represents ll xs
    → Distinct (values ++ xs)
    → length values + length xs < 2 ^ 32
    → Represents (push_all true values ll) (xs ++ values)
unfolding push_all
tail_pushed [] xs ll r d small = subst (Represents ll) (sym (append-nil xs)) r
tail_pushed ((k, v) ∷ vs) xs ll r d small =
    let (fv, fx) = IsFresh-append k vs xs d.0 in
    let (next, size) = add_last-Represents ll xs k v r fx (omega arith) in
    let longer : length (xs ++ (k, v) ∷ []) ≡ length xs + 1 =
      omega (arith, length-append xs ((k, v) ∷ [])) in
    subst (Represents (push_all true vs (add_last k v ll).1)) (append_assoc xs ((k, v) ∷ []) vs) (
      tail_pushed vs (xs ++ (k, v) ∷ []) (add_last k v ll).1 next (moved_last (k, v) vs xs d)
        (omega (arith, longer)))

head_pushed :
    (values xs : List Element) (ll : Linked)
    → Represents ll xs
    → Distinct (values ++ xs)
    → length values + length xs < 2 ^ 32
    → Represents (push_all false values ll) (onto_front values xs)
unfolding push_all onto_front
head_pushed [] xs ll r d small = r
head_pushed ((k, v) ∷ vs) xs ll r d small =
    let (fv, fx) = IsFresh-append k vs xs d.0 in
    let (next, size) = add_first-Represents ll xs k v r fx (omega arith) in
    head_pushed vs ((k, v) ∷ xs) (add_first k v ll).1 next (moved_between (k, v) vs xs d)
      (omega arith)

-- Pushing values to a list that stands for a sequence gives a list for the sequence with the values
-- behind it in order, or in front of it in reverse order. The keys of the new nodes differ from each
-- other and from those of the list, and the length fits in 32 bits.
pub push_all-Represents :
    (at_tail : Bool) (values xs : List Element) (ll : Linked)
    → Represents ll xs
    → Distinct (values ++ xs)
    → length values + length xs < 2 ^ 32
    → Represents
        (push_all at_tail values ll)
        (if at_tail then xs ++ values else onto_front values xs)
push_all-Represents true values xs ll r d small = tail_pushed values xs ll r d small
push_all-Represents false values xs ll r d small = head_pushed values xs ll r d small
