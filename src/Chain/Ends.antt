-- ===== src/Chain/Ends.antt =====
-- What is added and removed at the two ends of a list.
use invar.Prelude.{
  ℕ, suc, ◌+◌, ◌%◌, ◌^◌, ◌<◌, ◌≡◌, ◌∙◌, refl, sym, ap, subst, Option, none, some, List, [], ◌∷◌,
  ◌++◌, length, length-append, append-nil, Bytes, arith,
}
use invar.Prelude.Dicts.{Dict, erase, put, lookup-put_self, lookup-put_ne}
use invar.Chain.{
  ListNode, Linked, set_prev, set_next, end_unless, add_first, add_last, cut_head, cut_tail,
  remove_first, remove_last, take_node, remove_with,
}
use invar.Chain.Segments.{
  Element, first_key, last_key, node_of, Stretch, IsFresh, Distinct, Stretch-put, Stretch-erase,
  Stretch-set_prev_first, Stretch-set_next_last, Stretch-append, append-Stretch,
}
use invar.Chain.Represent.{
  Represents, last_key-snoc, IsFresh-append, append-IsFresh, Distinct-middle, middle-Distinct,
  absent-set_prev, absent-set_next, absent-erase, erase-IsSound, put-IsSound, set_prev-IsSound,
  set_next-IsSound,
}

pub grown : (n : ℕ) → suc n < 2 ^ 32 → (n + 1) % 2 ^ 32 ≡ suc n
grown n h = omega arith

-- Adding in front of a list that stands for a sequence gives a list for the longer sequence, and the
-- answer is its length. The new key is none of the list's, and the length fits in 32 bits.
pub add_first-Represents :
    (ll : Linked) (xs : List Element) (key value : Bytes)
    → Represents ll xs
    → IsFresh key xs
    → suc (length xs) < 2 ^ 32
    → Represents (add_first key value ll).1 ((key, value) ∷ xs)
      × ((add_first key value ll).0 ≡ suc (length xs))
unfolding add_first
add_first-Represents ll xs key value r fresh small =
    let size : (ll.size + 1) % 2 ^ 32 ≡ suc (length xs) = rw r.counted (grown (length xs) small) in
    let node : ListNode = node_of (key, value) none (first_key xs none) in
    let linked : Dict ListNode = set_prev (first_key xs none) (some key) ll.nodes in
    (
      record {
        chained =
            subst
              (λ o.
                Stretch (put key (node_of (key, value) none o) (set_prev o (some key) ll.nodes))
                  none ((key, value) ∷ xs) none)
              (sym r.at_head)
              (
                lookup-put_self key node linked,
                Stretch-put key node linked (some key) xs none fresh
                    (Stretch-set_prev_first (some key) ll.nodes none xs none r.distinct r.chained),
              );
        distinct = (fresh, r.distinct);
        whole = λ k (ne, out).
            lookup-put_ne key k (node_of (key, value) none ll.head)
              (set_prev ll.head (some key) ll.nodes) ne
            ∙ absent-set_prev ll.head (some key) k ll.nodes (r.whole k out);
        at_head = refl;
        at_tail = rw (r.at_head, r.at_tail) (moved xs);
        counted = size;
        sound =
            put-IsSound (node_of (key, value) none ll.head) (set_prev ll.head (some key) ll.nodes)
              (set_prev-IsSound ll.head (some key) ll.nodes r.sound);
      },
      size,
    )
  where
    moved :
        (xs : List Element)
        → end_unless (first_key xs none) (some key) (last_key none xs) ≡ last_key (some key) xs
    moved [] = refl
    moved (x ∷ xs) = refl

-- The same behind the list.
pub add_last-Represents :
    (ll : Linked) (xs : List Element) (key value : Bytes)
    → Represents ll xs
    → IsFresh key xs
    → suc (length xs) < 2 ^ 32
    → Represents (add_last key value ll).1 (xs ++ (key, value) ∷ [])
      × ((add_last key value ll).0 ≡ suc (length xs))
unfolding add_last
add_last-Represents ll xs key value r fresh small =
    let size : (ll.size + 1) % 2 ^ 32 ≡ suc (length xs) = rw r.counted (grown (length xs) small) in
    let node : ListNode = node_of (key, value) (last_key none xs) none in
    let linked : Dict ListNode = set_next (last_key none xs) (some key) ll.nodes in
    (
      record {
        chained =
            subst
              (λ o.
                Stretch (put key (node_of (key, value) o none) (set_next o (some key) ll.nodes))
                  none (xs ++ (key, value) ∷ []) none)
              (sym r.at_tail)
              (append-Stretch (put key node linked) none xs ((key, value) ∷ []) none
                (Stretch-put key node linked none xs (some key) fresh
                  (Stretch-set_next_last (some key) ll.nodes none xs none r.distinct r.chained))
                (lookup-put_self key node linked, tt));
        distinct =
            middle-Distinct xs key value [] (rw (append-nil xs) r.distinct)
              (rw (append-nil xs) fresh);
        whole = λ k h.
            let (out, (ne, u)) = IsFresh-append k xs ((key, value) ∷ []) h in
            lookup-put_ne key k (node_of (key, value) ll.tail none)
              (set_next ll.tail (some key) ll.nodes) ne
            ∙ absent-set_next ll.tail (some key) k ll.nodes (r.whole k out);
        at_head = rw (r.at_head, r.at_tail) (moved xs);
        at_tail = sym (last_key-snoc none xs key value);
        counted = size ∙ sym (longer xs);
        sound =
            put-IsSound (node_of (key, value) ll.tail none) (set_next ll.tail (some key) ll.nodes)
              (set_next-IsSound ll.tail (some key) ll.nodes r.sound);
      },
      size,
    )
  where
    moved :
        (xs : List Element)
        → end_unless (last_key none xs) (some key) (first_key xs none)
          ≡ first_key (xs ++ (key, value) ∷ []) none
    moved [] = refl
    moved ((k, v) ∷ xs) = ends (some key) k k xs
      where
        ends :
            (w : Option Bytes) (k j : Bytes) (xs : List Element)
            → end_unless (last_key (some k) xs) w (some j) ≡ some j
        ends w k j [] = refl
        ends w k j ((i, u) ∷ xs) = ends w i j xs

    longer : (xs : List Element) → length (xs ++ (key, value) ∷ []) ≡ suc (length xs)
    longer xs = omega (arith, length-append xs ((key, value) ∷ []))

-- The first element goes.
cut_head-Represents :
    (ll : Linked) (k v : Bytes) (xs : List Element)
    → Represents ll ((k, v) ∷ xs)
    → Represents (cut_head k (node_of (k, v) none (first_key xs none)) ll) xs
unfolding cut_head
cut_head-Represents ll k v xs r =
    let rest : Dict ListNode = erase k ll.nodes in
    record {
      chained =
          Stretch-set_prev_first none rest (some k) xs none r.distinct.1
            (Stretch-erase k ll.nodes (some k) xs none r.distinct.0 r.chained.1);
      distinct = r.distinct.1;
      whole = λ j h.
          absent-set_prev (first_key xs none) none j rest
            (absent-erase k j ll.nodes (λ ne. r.whole j (ne, h)));
      at_head = refl;
      at_tail = rw r.at_tail (moved xs);
      counted = rw r.counted (omega arith);
      sound = set_prev-IsSound (first_key xs none) none rest (erase-IsSound k ll.nodes r.sound);
    }
  where
    moved :
        (xs : List Element)
        → end_unless (first_key xs none) none (last_key (some k) xs) ≡ last_key none xs
    moved [] = refl
    moved (x ∷ xs) = refl

-- The last element goes.
cut_tail-Represents :
    (ll : Linked) (xs : List Element) (k v : Bytes)
    → Represents ll (xs ++ (k, v) ∷ [])
    → Represents (cut_tail k (node_of (k, v) (last_key none xs) none) ll) xs
unfolding cut_tail
cut_tail-Represents ll xs k v r =
    let rest : Dict ListNode = erase k ll.nodes in
    let (fresh, u, d) = Distinct-middle xs k v [] r.distinct in
    let distinct : Distinct xs = rw (append-nil xs) at d in
    let (left, right) = Stretch-append ll.nodes none xs ((k, v) ∷ []) none r.chained in
    record {
      chained =
          Stretch-set_next_last none rest none xs (some k) distinct
            (Stretch-erase k ll.nodes none xs (some k) fresh left);
      distinct = distinct;
      whole = λ j h. absent-set_next (last_key none xs) none j rest (
          absent-erase k j ll.nodes
            (λ ne. r.whole j (append-IsFresh j xs ((k, v) ∷ []) h (ne, tt))));
      at_head = rw r.at_head (moved xs);
      at_tail = refl;
      counted = rw (r.counted, length-append xs ((k, v) ∷ [])) (omega arith);
      sound = set_next-IsSound (last_key none xs) none rest (erase-IsSound k ll.nodes r.sound);
    }
  where
    ends :
        (w j : Option Bytes) (i : Bytes) (xs : List Element)
        → end_unless (last_key (some i) xs) w j ≡ j
    ends w j i [] = refl
    ends w j i ((l, u) ∷ xs) = ends w j l xs

    moved :
        (xs : List Element)
        → end_unless (last_key none xs) none (first_key (xs ++ (k, v) ∷ []) none)
          ≡ first_key xs none
    moved [] = refl
    moved ((i, u) ∷ xs) = ends none (some i) i xs

-- The outcome of `remove_first`, by the sequence.
pub FirstTaken : Linked → List Element → Type 0
FirstTaken ll [] = remove_first ll ≡ (none, ll)
FirstTaken ll ((k, v) ∷ xs) = ((remove_first ll).0 ≡ some v) × Represents (remove_first ll).1 xs

-- `remove_first` on a list that stands for a sequence takes the first element from it and answers its
-- value; on one that stands for none, it answers nothing and changes nothing.
pub remove_first-Represents :
    (ll : Linked) (xs : List Element) → Represents ll xs → FirstTaken ll xs
unfolding remove_first FirstTaken
remove_first-Represents ll [] r = ap (λ (o : Option Bytes). remove_with cut_head o ll) r.at_head
remove_first-Represents ll ((k, v) ∷ xs) r =
    let step : remove_first ll ≡ (some v, cut_head k (node_of (k, v) none (first_key xs none)) ll) =
      ap (λ (o : Option Bytes). remove_with cut_head o ll) r.at_head
      ∙ ap (take_node cut_head k ll) r.chained.0 in
    (
      ap (λ (p : Option Bytes × Linked). p.0) step,
      subst (λ (p : Option Bytes × Linked). Represents p.1 xs) (sym step)
          (cut_head-Represents ll k v xs r),
    )

-- `remove_last` on a list that stands for a sequence that has a last element takes that from it and
-- answers its value.
pub remove_last-Represents :
    (ll : Linked) (xs : List Element) (k v : Bytes)
    → Represents ll (xs ++ (k, v) ∷ [])
    → ((remove_last ll).0 ≡ some v) × Represents (remove_last ll).1 xs
unfolding remove_last
remove_last-Represents ll xs k v r =
    let (left, right) = Stretch-append ll.nodes none xs ((k, v) ∷ []) none r.chained in
    let at_tail : ll.tail ≡ some k = r.at_tail ∙ last_key-snoc none xs k v in
    let step : remove_last ll ≡ (some v, cut_tail k (node_of (k, v) (last_key none xs) none) ll) =
      ap (λ (o : Option Bytes). remove_with cut_tail o ll) at_tail
      ∙ ap (take_node cut_tail k ll) right.0 in
    (
      ap (λ (p : Option Bytes × Linked). p.0) step,
      subst (λ (p : Option Bytes × Linked). Represents p.1 xs) (sym step)
          (cut_tail-Represents ll xs k v r),
    )
