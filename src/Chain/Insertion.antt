-- ===== src/Chain/Insertion.antt =====
-- What `insert` does to a list: a new element beside the first one that holds the pivot.
use invar.Prelude.{
  suc, ◌+◌, ◌%◌, ◌^◌, ◌<◌, ◌≡◌, ◌∙◌, refl, sym, false, Option, none, some, List, [], ◌∷◌, ◌++◌,
  length, length-append, Bytes, bytes_eq, arith,
}
use invar.Prelude.Dicts.{Dict, lookup, put, lookup-put_self}
use invar.Chain.{ListNode, Linked, set_prev, set_next, end_unless}
use invar.Chain.Segments.{
  Element, first_key, last_key, node_of, Stretch, IsFresh, Distinct, Stretch-put, Stretch-set_prev,
  Stretch-set_next, Stretch-set_prev_first, Stretch-set_next_last, Stretch-append, append-Stretch,
}
use invar.Chain.Represent.{
  IsSound, Represents, last_key-snoc, last_key-append, IsFresh-append, append-IsFresh,
  Distinct-append, middle-Distinct, Outside-last, Outside-first,
}
use invar.Chain.Ends.{grown}

-- The new node stands in the map between the elements on its left and on its right.
pub record Joined (m : Dict ListNode) (xs : List Element) (x : Element) (ys : List Element)
    : Type 0 where
  pub left : Stretch m none xs (some x.0)
  pub here : Stretch m (last_key none xs) (x ∷ []) (first_key ys none)
  pub right : Stretch m (some x.0) ys none

abbrev pub fresh_node : List Element → Element → List Element → ListNode
fresh_node xs x ys = node_of x (last_key none xs) (first_key ys none)

module _ (m : Dict ListNode) (xs : List Element) (x : Element) (ys : List Element)
    (h : Stretch m none (xs ++ ys) none) (d : Distinct (xs ++ ys))
    (fresh : IsFresh x.0 (xs ++ ys)) where
  abbrev pub grown_map : Dict ListNode
  grown_map = put x.0 (fresh_node xs x ys) m

  -- In either order the two neighbours are relinked to the new node.
  pub Joined-before :
      Joined
        (set_prev (first_key ys none) (some x.0) (set_next (last_key none xs) (some x.0) grown_map))
        xs
        x
        ys
  Joined-before =
      let (left, right) = Stretch-append m none xs ys none h in
      let (dx, dy, before, behind) = Distinct-append xs ys d in
      let (fx, fy) = IsFresh-append x.0 xs ys fresh in
      let m' : Dict ListNode = set_next (last_key none xs) (some x.0) grown_map in
      record {
        left = Stretch-set_prev (first_key ys none) (some x.0) m' none xs (some x.0) before (
            Stretch-set_next_last (some x.0) grown_map none xs (first_key ys none) dx
              (Stretch-put x.0 (fresh_node xs x ys) m none xs (first_key ys none) fx left));
        here =
            Stretch-set_prev (first_key ys none) (some x.0) m' (last_key none xs) (x ∷ [])
              (first_key ys none) (Outside-first x.0 x.1 ys fy)
              (Stretch-set_next (last_key none xs) (some x.0) grown_map (last_key none xs) (x ∷ [])
                (first_key ys none) (Outside-last x.0 x.1 xs fx)
                (lookup-put_self x.0 (fresh_node xs x ys) m, tt));
        right = Stretch-set_prev_first (some x.0) m' (last_key none xs) ys none dy (
            Stretch-set_next (last_key none xs) (some x.0) grown_map (last_key none xs) ys none
              behind (Stretch-put x.0 (fresh_node xs x ys) m (last_key none xs) ys none fy right));
      }

  pub Joined-after :
      Joined
        (set_next (last_key none xs) (some x.0) (set_prev (first_key ys none) (some x.0) grown_map))
        xs
        x
        ys
  Joined-after =
      let (left, right) = Stretch-append m none xs ys none h in
      let (dx, dy, before, behind) = Distinct-append xs ys d in
      let (fx, fy) = IsFresh-append x.0 xs ys fresh in
      let m' : Dict ListNode = set_prev (first_key ys none) (some x.0) grown_map in
      record {
        left = Stretch-set_next_last (some x.0) m' none xs (first_key ys none) dx (
            Stretch-set_prev (first_key ys none) (some x.0) grown_map none xs (first_key ys none)
              before (Stretch-put x.0 (fresh_node xs x ys) m none xs (first_key ys none) fx left));
        here =
            Stretch-set_next (last_key none xs) (some x.0) m' (last_key none xs) (x ∷ [])
              (first_key ys none) (Outside-last x.0 x.1 xs fx)
              (Stretch-set_prev (first_key ys none) (some x.0) grown_map (last_key none xs) (x ∷ [])
                (first_key ys none) (Outside-first x.0 x.1 ys fy)
                (lookup-put_self x.0 (fresh_node xs x ys) m, tt));
        right = Stretch-set_next (last_key none xs) (some x.0) m' (some x.0) ys none behind (
            Stretch-set_prev_first (some x.0) grown_map (last_key none xs) ys none dy
              (Stretch-put x.0 (fresh_node xs x ys) m (last_key none xs) ys none fy right));
      }

-- A list whose map joins a new node into a sequence stands for the longer one.
pub Joined-Represents :
    (ll : Linked) (m : Dict ListNode) (xs : List Element) (x : Element) (ys : List Element)
    → Represents ll (xs ++ ys)
    → IsFresh x.0 (xs ++ ys)
    → suc (length (xs ++ ys)) < 2 ^ 32
    → Joined m xs x ys
    → ((k : Bytes) → bytes_eq k x.0 ≡ false → lookup k ll.nodes ≡ none → lookup k m ≡ none)
    → IsSound m
    → Represents
        (record ll {
          size = (ll.size + 1) % 2 ^ 32;
          head = end_unless (last_key none xs) (some x.0) ll.head;
          tail = end_unless (first_key ys none) (some x.0) ll.tail;
          nodes = m;
        })
        (xs ++ x ∷ ys)
Joined-Represents ll m xs x ys r fresh small j absent sound = record {
  sound = sound;
  chained = append-Stretch m none xs (x ∷ ys) none j.left (j.here.0, j.right);
  distinct = middle-Distinct xs x.0 x.1 ys r.distinct fresh;
  whole = λ k h.
      let (a, (ne, b)) = IsFresh-append k xs (x ∷ ys) h in
      absent k ne (r.whole k (append-IsFresh k xs ys a b));
  at_head = rw r.at_head (new_first xs x ys);
  at_tail = rw r.at_tail (new_last xs x ys);
  counted =
      let size : (ll.size + 1) % 2 ^ 32 ≡ suc (length (xs ++ ys)) =
        rw r.counted (grown (length (xs ++ ys)) small) in
      omega (arith, size, length-append xs ys, length-append xs (x ∷ ys));
}
  where
    ends :
        (w : Option Bytes) (k j : Bytes) (xs : List Element)
        → end_unless (last_key (some k) xs) w (some j) ≡ some j
    ends w k j [] = refl
    ends w k j ((i, u) ∷ xs) = ends w i j xs

    new_first :
        (xs : List Element) (x : Element) (ys : List Element)
        → end_unless (last_key none xs) (some x.0) (first_key (xs ++ ys) none)
          ≡ first_key (xs ++ x ∷ ys) none
    new_first [] x ys = refl
    new_first ((k, v) ∷ xs) x ys = ends (some x.0) k k xs

    new_last :
        (xs : List Element) (x : Element) (ys : List Element)
        → end_unless (first_key ys none) (some x.0) (last_key none (xs ++ ys))
          ≡ last_key none (xs ++ x ∷ ys)
    new_last xs x [] = sym (last_key-snoc none xs x.0 x.1)
    new_last xs x (y ∷ ys) =
        last_key-append none xs (y ∷ ys) ∙ sym (last_key-append none xs (x ∷ y ∷ ys))
