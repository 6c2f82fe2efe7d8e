-- ===== src/Chain/Segments.antt =====
-- The stretch of a chain that holds a sequence of elements, each a key and a value, and what the
-- changes of the map do to it.
use invar.Prelude.{
  ◌≡◌, ◌∙◌, refl, false, Option, none, some, List, [], ◌∷◌, ◌++◌, All, Bytes, bytes_eq,
  bytes_eq_sym,
}
use invar.Prelude.Dicts.{
  Dict, lookup, erase, put, adjust, lookup-put_ne, lookup-erase_ne, lookup-adjust_self,
  lookup-adjust_ne,
}
use invar.Chain.{ListNode, set_prev, set_next}

abbrev pub Element : Type 0
Element = Bytes × Bytes

abbrev pub first_key : List Element → Option Bytes → Option Bytes
first_key [] link = link
first_key ((k, v) ∷ xs) link = some k

abbrev pub last_key : Option Bytes → List Element → Option Bytes
last_key link [] = link
last_key link ((k, v) ∷ xs) = last_key (some k) xs

abbrev pub node_of : Element → Option Bytes → Option Bytes → ListNode
node_of (k, v) prev next = record { key = k; value = v; prev = prev; next = next }

-- The nodes of the elements stand in the map, each linked to its neighbours; the links out of the
-- stretch are the two given.
abbrev pub Stretch : Dict ListNode → Option Bytes → List Element → Option Bytes → Type 0
Stretch m prev [] next = Unit {0}
Stretch m prev ((k, v) ∷ xs) next =
    (lookup k m ≡ some (node_of (k, v) prev (first_key xs next))) × Stretch m (some k) xs next

abbrev pub IsFresh : Bytes → List Element → Type 0
IsFresh k xs = All (λ (x : Element). bytes_eq k x.0 ≡ false) xs

abbrev pub Distinct : List Element → Type 0
Distinct [] = Unit {0}
Distinct ((k, v) ∷ xs) = IsFresh k xs × Distinct xs

-- No element of the list has the key, where there is one.
abbrev pub Outside : Option Bytes → List Element → Type 0
Outside none xs = Unit {0}
Outside (some k) xs = IsFresh k xs

-- A map that answers the same for the keys of a stretch holds it too.
pub Stretch-frame :
    (m m' : Dict ListNode) (prev : Option Bytes) (xs : List Element) (next : Option Bytes)
    → All (λ (x : Element). lookup x.0 m' ≡ lookup x.0 m) xs
    → Stretch m prev xs next
    → Stretch m' prev xs next
Stretch-frame m m' prev [] next same h = tt
Stretch-frame m m' prev ((k, v) ∷ xs) next (e, same) (here, rest) =
    (e ∙ here, Stretch-frame m m' (some k) xs next same rest)

unchanged :
    (k : Bytes) (m m' : Dict ListNode) (xs : List Element)
    → ((j : Bytes) → bytes_eq j k ≡ false → lookup j m' ≡ lookup j m)
    → IsFresh k xs
    → All (λ (x : Element). lookup x.0 m' ≡ lookup x.0 m) xs
unchanged k m m' [] h fresh = tt
unchanged k m m' ((j, v) ∷ xs) h (apart, fresh) =
    (h j (bytes_eq_sym j k ∙ apart), unchanged k m m' xs h fresh)

pub Stretch-put :
    (k : Bytes) (n : ListNode) (m : Dict ListNode) (prev : Option Bytes) (xs : List Element)
    (next : Option Bytes)
    → IsFresh k xs
    → Stretch m prev xs next
    → Stretch (put k n m) prev xs next
Stretch-put k n m prev xs next fresh =
    Stretch-frame m (put k n m) prev xs next
      (unchanged k m (put k n m) xs (λ j h. lookup-put_ne k j n m h) fresh)

pub Stretch-erase :
    (k : Bytes) (m : Dict ListNode) (prev : Option Bytes) (xs : List Element) (next : Option Bytes)
    → IsFresh k xs
    → Stretch m prev xs next
    → Stretch (erase k m) prev xs next
Stretch-erase k m prev xs next fresh =
    Stretch-frame m (erase k m) prev xs next
      (unchanged k m (erase k m) xs (λ j h. lookup-erase_ne k j m h) fresh)

Stretch-adjust :
    (k : Bytes) (f : ListNode → ListNode) (m : Dict ListNode) (prev : Option Bytes)
    (xs : List Element) (next : Option Bytes)
    → IsFresh k xs
    → Stretch m prev xs next
    → Stretch (adjust k f m) prev xs next
Stretch-adjust k f m prev xs next fresh =
    Stretch-frame m (adjust k f m) prev xs next
      (unchanged k m (adjust k f m) xs (λ j h. lookup-adjust_ne k j f m h) fresh)

pub Stretch-set_prev :
    (o link : Option Bytes) (m : Dict ListNode) (prev : Option Bytes) (xs : List Element)
    (next : Option Bytes)
    → Outside o xs
    → Stretch m prev xs next
    → Stretch (set_prev o link m) prev xs next
unfolding set_prev
Stretch-set_prev none link m prev xs next out h = h
Stretch-set_prev (some k) link m prev xs next out h =
    Stretch-adjust k (λ n. record n { prev = link }) m prev xs next out h

pub Stretch-set_next :
    (o link : Option Bytes) (m : Dict ListNode) (prev : Option Bytes) (xs : List Element)
    (next : Option Bytes)
    → Outside o xs
    → Stretch m prev xs next
    → Stretch (set_next o link m) prev xs next
unfolding set_next
Stretch-set_next none link m prev xs next out h = h
Stretch-set_next (some k) link m prev xs next out h =
    Stretch-adjust k (λ n. record n { next = link }) m prev xs next out h

-- The link into a stretch from the left is replaced.
pub Stretch-set_prev_first :
    (link : Option Bytes) (m : Dict ListNode) (prev : Option Bytes) (xs : List Element)
    (next : Option Bytes)
    → Distinct xs
    → Stretch m prev xs next
    → Stretch (set_prev (first_key xs none) link m) link xs next
unfolding set_prev
Stretch-set_prev_first link m prev [] next d h = tt
Stretch-set_prev_first link m prev ((k, v) ∷ xs) next (fresh, d) (here, rest) = (
  lookup-adjust_self k (λ n. record n { prev = link }) (node_of (k, v) prev (first_key xs next)) m
      here,
  Stretch-adjust k (λ n. record n { prev = link }) m (some k) xs next fresh rest,
)

-- The link out of a stretch to the right is replaced.
last_among :
    (k : Bytes) (xs : List Element) (j : Bytes)
    → bytes_eq j k ≡ false
    → IsFresh j xs
    → Outside (last_key (some k) xs) ((j, []) ∷ [])
last_among k [] j apart fresh = (bytes_eq_sym k j ∙ apart, tt)
last_among k ((i, v) ∷ xs) j apart (h, fresh) = last_among i xs j h fresh

set_next_in :
    (link : Option Bytes) (m : Dict ListNode) (j v : Bytes) (prev : Option Bytes)
    (xs : List Element) (next : Option Bytes)
    → Distinct ((j, v) ∷ xs)
    → Stretch m prev ((j, v) ∷ xs) next
    → Stretch (set_next (last_key (some j) xs) link m) prev ((j, v) ∷ xs) link
unfolding set_next
set_next_in link m j v prev [] next d (here, rest) =
    (lookup-adjust_self j (λ n. record n { next = link }) (node_of (j, v) prev next) m here, tt)
set_next_in link m j v prev ((i, w) ∷ xs) next ((apart, fresh), d) (here, rest) =
    (other ∙ here, set_next_in link m i w (some j) xs next d rest)
  where
    other : lookup j (set_next (last_key (some i) xs) link m) ≡ lookup j m
    other = kept (last_key (some i) xs) (last_among i xs j apart fresh)
      where
        kept :
            (o : Option Bytes)
            → Outside o ((j, []) ∷ [])
            → lookup j (set_next o link m) ≡ lookup j m
        kept none out = unfold set_next in refl
        kept (some l) (ne, u) =
            unfold set_next in
            lookup-adjust_ne l j (λ n. record n { next = link }) m (bytes_eq_sym j l ∙ ne)

pub Stretch-set_next_last :
    (link : Option Bytes) (m : Dict ListNode) (prev : Option Bytes) (xs : List Element)
    (next : Option Bytes)
    → Distinct xs
    → Stretch m prev xs next
    → Stretch (set_next (last_key none xs) link m) prev xs link
Stretch-set_next_last link m prev [] next d h = tt
Stretch-set_next_last link m prev ((j, v) ∷ xs) next d h = set_next_in link m j v prev xs next d h

-- A stretch falls into two and is put together from them.
pub Stretch-append :
    (m : Dict ListNode) (prev : Option Bytes) (xs ys : List Element) (next : Option Bytes)
    → Stretch m prev (xs ++ ys) next
    → Stretch m prev xs (first_key ys next) × Stretch m (last_key prev xs) ys next
Stretch-append m prev [] ys next h = (tt, h)
Stretch-append m prev ((k, v) ∷ []) ys next (here, rest) = ((here, tt), rest)
Stretch-append m prev ((k, v) ∷ (j, w) ∷ xs) ys next (here, rest) =
    let (left, right) = Stretch-append m (some k) ((j, w) ∷ xs) ys next rest in
    ((here, left), right)

pub append-Stretch :
    (m : Dict ListNode) (prev : Option Bytes) (xs ys : List Element) (next : Option Bytes)
    → Stretch m prev xs (first_key ys next)
    → Stretch m (last_key prev xs) ys next
    → Stretch m prev (xs ++ ys) next
append-Stretch m prev [] ys next left right = right
append-Stretch m prev ((k, v) ∷ []) ys next (here, left) right = (here, right)
append-Stretch m prev ((k, v) ∷ (j, w) ∷ xs) ys next (here, left) right =
    (here, append-Stretch m (some k) ((j, w) ∷ xs) ys next left right)
