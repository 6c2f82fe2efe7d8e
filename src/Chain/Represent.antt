-- ===== src/Chain/Represent.antt =====
-- When a list in memory stands for a sequence of elements.
use invar.Prelude.{
  ℕ, zero, suc, ◌≤◌, ◌≡◌, ◌∙◌, refl, ap, false, Option, none, some, List, [], ◌∷◌, ◌++◌, length,
  map, Bytes, bytes_eq, bytes_eq→eq, bytes_eq_sym, Bool-cases, inl, inr, arith,
}
use invar.Prelude.Dicts.{
  Dict, lookup, erase, put, adjust, lookup-erase_self, lookup-erase_ne, lookup-adjust-none,
  length-erase_lt,
}
use invar.Chain.{ListNode, Linked, new_empty, set_prev, set_next, next_of, keys_from, ordered_keys}
use invar.Chain.Segments.{
  Element, first_key, last_key, node_of, Stretch, IsFresh, Distinct, Outside, Stretch-erase,
}

-- Every node stands under its own key, and every key has one entry.
abbrev pub IsSound : Dict ListNode → Type 0
IsSound [] = Unit {0}
IsSound ((k, n) ∷ m) = (n.key ≡ k) × (lookup k m ≡ none) × IsSound m

absent_erased : (k j : Bytes) (m : Dict ListNode) → lookup j m ≡ none → lookup j (erase k m) ≡ none
absent_erased k j m h = elim (Bool-cases (bytes_eq j k)) [
  | inl e ↦ rw (bytes_eq→eq j k e) (lookup-erase_self k m)
  | inr e ↦ lookup-erase_ne k j m e ∙ h
]

pub erase-IsSound : (k : Bytes) (m : Dict ListNode) → IsSound m → IsSound (erase k m)
unfolding erase
erase-IsSound k [] h = tt
erase-IsSound k ((j, n) ∷ m) (own, absent, h) = elim (Bool-cases (bytes_eq k j)) [
  | inl e ↦ rw e (erase-IsSound k m h)
  | inr e ↦ rw e (own, absent_erased k j m absent, erase-IsSound k m h)
]

pub put-IsSound : (n : ListNode) (m : Dict ListNode) → IsSound m → IsSound (put n.key n m)
unfolding put
put-IsSound n m h = (refl, lookup-erase_self n.key m, erase-IsSound n.key m h)

adjust-IsSound :
    (k : Bytes) (f : ListNode → ListNode) (m : Dict ListNode)
    → ((n : ListNode) → (f n).key ≡ n.key)
    → IsSound m
    → IsSound (adjust k f m)
unfolding adjust
adjust-IsSound k f [] keeps h = tt
adjust-IsSound k f ((j, n) ∷ m) keeps (own, absent, h) = elim (Bool-cases (bytes_eq k j)) [
  | inl e ↦ rw e (keeps n ∙ own, absent, h)
  | inr e ↦ rw e (own, lookup-adjust-none k j f m absent, adjust-IsSound k f m keeps h)
]

pub set_prev-IsSound :
    (o link : Option Bytes) (m : Dict ListNode) → IsSound m → IsSound (set_prev o link m)
unfolding set_prev
set_prev-IsSound none link m h = h
set_prev-IsSound (some k) link m h =
    adjust-IsSound k (λ n. record n { prev = link }) m (λ n. refl) h

pub set_next-IsSound :
    (o link : Option Bytes) (m : Dict ListNode) → IsSound m → IsSound (set_next o link m)
unfolding set_next
set_next-IsSound none link m h = h
set_next-IsSound (some k) link m h =
    adjust-IsSound k (λ n. record n { next = link }) m (λ n. refl) h

-- The nodes of the map are those of the elements, chained from the head to the tail, under distinct
-- keys, and the size is their number.
pub record Represents (ll : Linked) (xs : List Element) : Type 0 where
  pub chained : Stretch ll.nodes none xs none
  pub distinct : Distinct xs
  pub whole : (k : Bytes) → IsFresh k xs → lookup k ll.nodes ≡ none
  pub at_head : ll.head ≡ first_key xs none
  pub at_tail : ll.tail ≡ last_key none xs
  pub counted : ll.size ≡ length xs
  pub sound : IsSound ll.nodes

abbrev pub keys_of : List Element → List Bytes
keys_of xs = map (λ (x : Element). x.0) xs

-- What a client of the list sees.
abbrev pub values_of : List Element → List Bytes
values_of xs = map (λ (x : Element). x.1) xs

pub last_key-snoc :
    (link : Option Bytes) (xs : List Element) (k v : Bytes)
    → last_key link (xs ++ (k, v) ∷ []) ≡ some k
last_key-snoc link [] k v = refl
last_key-snoc link ((j, w) ∷ xs) k v = last_key-snoc (some j) xs k v

pub last_key-append :
    (link : Option Bytes) (xs ys : List Element)
    → last_key link (xs ++ ys) ≡ last_key (last_key link xs) ys
last_key-append link [] ys = refl
last_key-append link ((j, w) ∷ xs) ys = last_key-append (some j) xs ys

pub first_key-append :
    (link : Option Bytes) (xs ys : List Element)
    → first_key (xs ++ ys) link ≡ first_key xs (first_key ys link)
first_key-append link [] ys = refl
first_key-append link ((j, w) ∷ xs) ys = refl

pub IsFresh-append :
    (k : Bytes) (xs ys : List Element) → IsFresh k (xs ++ ys) → IsFresh k xs × IsFresh k ys
IsFresh-append k [] ys h = (tt, h)
IsFresh-append k (x ∷ xs) ys (e, h) = let (a, b) = IsFresh-append k xs ys h in ((e, a), b)

pub append-IsFresh :
    (k : Bytes) (xs ys : List Element) → IsFresh k xs → IsFresh k ys → IsFresh k (xs ++ ys)
append-IsFresh k [] ys a b = b
append-IsFresh k (x ∷ xs) ys (e, a) b = (e, append-IsFresh k xs ys a b)

-- What the distinctness of a sequence gives where it is cut in two.
pub Distinct-append :
    (xs ys : List Element)
    → Distinct (xs ++ ys)
    → Distinct xs × Distinct ys × Outside (first_key ys none) xs × Outside (last_key none xs) ys
Distinct-append [] [] d = (tt, d, tt, tt)
Distinct-append [] ((k, v) ∷ ys) d = (tt, d, tt, tt)
Distinct-append ((j, w) ∷ xs) ys (fresh, d) =
    let (dx, dy, left, right) = Distinct-append xs ys d in
    let (ax, ay) = IsFresh-append j xs ys fresh in
    ((ax, dx), dy, ahead j w xs ys ay left, behind j xs ys ay right)
  where
    ahead :
        (j w : Bytes) (xs ys : List Element)
        → IsFresh j ys
        → Outside (first_key ys none) xs
        → Outside (first_key ys none) ((j, w) ∷ xs)
    ahead j w xs [] h out = tt
    ahead j w xs ((k, v) ∷ ys) (ne, h) out = (bytes_eq_sym k j ∙ ne, out)

    behind :
        (j : Bytes) (xs ys : List Element)
        → IsFresh j ys
        → Outside (last_key none xs) ys
        → Outside (last_key (some j) xs) ys
    behind j [] ys h out = h
    behind j (x ∷ xs) ys h out = out

pub Distinct-middle :
    (xs : List Element) (k v : Bytes) (ys : List Element)
    → Distinct (xs ++ (k, v) ∷ ys)
    → IsFresh k xs × IsFresh k ys × Distinct (xs ++ ys)
Distinct-middle [] k v ys (fresh, d) = (tt, fresh, d)
Distinct-middle ((j, w) ∷ xs) k v ys (fresh, d) =
    let (a, b, rest) = Distinct-middle xs k v ys d in
    let (jx, (ne, jy)) = IsFresh-append j xs ((k, v) ∷ ys) fresh in
    ((bytes_eq_sym k j ∙ ne, a), b, (append-IsFresh j xs ys jx jy, rest))

pub middle-Distinct :
    (xs : List Element) (k v : Bytes) (ys : List Element)
    → Distinct (xs ++ ys)
    → IsFresh k (xs ++ ys)
    → Distinct (xs ++ (k, v) ∷ ys)
middle-Distinct [] k v ys d fresh = (fresh, d)
middle-Distinct ((j, w) ∷ xs) k v ys (jf, d) (ne, fresh) =
    let (jx, jy) = IsFresh-append j xs ys jf in
    (
      append-IsFresh j xs ((k, v) ∷ ys) jx (bytes_eq_sym j k ∙ ne, jy),
      middle-Distinct xs k v ys d fresh,
    )

pub absent-set_prev :
    (o link : Option Bytes) (k : Bytes) (m : Dict ListNode)
    → lookup k m ≡ none
    → lookup k (set_prev o link m) ≡ none
unfolding set_prev
absent-set_prev none link k m h = h
absent-set_prev (some j) link k m h = lookup-adjust-none j k (λ n. record n { prev = link }) m h

pub absent-set_next :
    (o link : Option Bytes) (k : Bytes) (m : Dict ListNode)
    → lookup k m ≡ none
    → lookup k (set_next o link m) ≡ none
unfolding set_next
absent-set_next none link k m h = h
absent-set_next (some j) link k m h = lookup-adjust-none j k (λ n. record n { next = link }) m h

-- A key that is absent but for `k` is absent once `k` is taken out, and one that differs from `k` is
-- not there for `k` being put in.
pub absent-erase :
    (k j : Bytes) (m : Dict ListNode)
    → (bytes_eq j k ≡ false → lookup j m ≡ none)
    → lookup j (erase k m) ≡ none
absent-erase k j m h = elim (Bool-cases (bytes_eq j k)) [
  | inl e ↦ rw (bytes_eq→eq j k e) (lookup-erase_self k m)
  | inr e ↦ lookup-erase_ne k j m e ∙ h e
]

-- The elements are no more than the nodes of the map.
pub length-Stretch :
    (m : Dict ListNode) (prev : Option Bytes) (xs : List Element) (next : Option Bytes)
    → Distinct xs
    → Stretch m prev xs next
    → length xs ≤ length m
length-Stretch m prev [] next d h = omega arith
length-Stretch m prev ((k, v) ∷ xs) next (fresh, d) (here, rest) =
    let fewer : length xs ≤ length (erase k m) =
      length-Stretch (erase k m) (some k) xs next d
        (Stretch-erase k m (some k) xs next fresh rest) in
    omega (arith, fewer, length-erase_lt k (node_of (k, v) prev (first_key xs next)) m here)

pub next_of_found :
    (k : Bytes) (n : ListNode) (m : Dict ListNode) → lookup k m ≡ some n → next_of k m ≡ n.next
unfolding next_of
next_of_found k n m h = rw (next_of, h) refl

keys_from-Stretch :
    (rounds : ℕ) (m : Dict ListNode) (prev : Option Bytes) (xs : List Element)
    → length xs ≤ rounds
    → Stretch m prev xs none
    → keys_from rounds (first_key xs none) m ≡ keys_of xs
unfolding keys_from
keys_from-Stretch zero m prev [] enough h = refl
keys_from-Stretch (suc rounds) m prev [] enough h = refl
keys_from-Stretch zero m prev (x ∷ xs) enough h = absurd (omega arith)
keys_from-Stretch (suc rounds) m prev ((k, v) ∷ xs) enough (here, rest) =
    ap (λ (o : Option Bytes). k ∷ keys_from rounds o m)
      (next_of_found k (node_of (k, v) prev (first_key xs none)) m here)
    ∙ ap (λ t. k ∷ t) (keys_from-Stretch rounds m (some k) xs (omega arith) rest)

-- The walk over the chain of a list that stands for a sequence ends, and gives the keys in order.
pub ordered_keys-Represents :
    (ll : Linked) (xs : List Element) → Represents ll xs → ordered_keys ll ≡ keys_of xs
unfolding ordered_keys
ordered_keys-Represents ll xs r = rw r.at_head (
    keys_from-Stretch (length ll.nodes) ll.nodes none xs
      (length-Stretch ll.nodes none xs none r.distinct r.chained) r.chained)

pub Outside-last :
    (k v : Bytes) (xs : List Element) → IsFresh k xs → Outside (last_key none xs) ((k, v) ∷ [])
Outside-last k v [] h = tt
Outside-last k v ((j, w) ∷ []) (ne, h) = (bytes_eq_sym j k ∙ ne, tt)
Outside-last k v ((j, w) ∷ (i, u) ∷ xs) (ne, h) = Outside-last k v ((i, u) ∷ xs) h

pub Outside-first :
    (k v : Bytes) (xs : List Element) → IsFresh k xs → Outside (first_key xs none) ((k, v) ∷ [])
Outside-first k v [] h = tt
Outside-first k v ((j, w) ∷ xs) (ne, h) = (bytes_eq_sym j k ∙ ne, tt)

-- The list with its ends at those of a sequence.
abbrev pub with_ends : Linked → List Element → Linked
with_ends ll xs = record ll { head = first_key xs none; tail = last_key none xs }

pub new_empty-Represents : Represents new_empty []
unfolding new_empty
new_empty-Represents = record {
  chained = tt;
  distinct = tt;
  whole = λ k h. unfold lookup in refl;
  at_head = refl;
  at_tail = refl;
  counted = refl;
  sound = tt;
}
