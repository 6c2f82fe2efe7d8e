-- ===== src/Chain/Trim.antt =====
-- What `trim_to` leaves of a list: the elements from one index to another.
use invar.Prelude.{
  ℕ, zero, suc, ◌+◌, ◌-◌, ◌^◌, ◌≤◌, ◌<◌, ◌≡◌, refl, sym, ap, subst, Bool, true, false, Option, none,
  some, List, [], ◌∷◌, ◌++◌, length, length-take, length-drop, take, drop, append-nil, append_assoc,
  Bytes, ltb, ◌||◌, if◌then◌else◌, arith,
}
use invar.Prelude.Dicts.{Dict, lookup, erase}
use invar.Chain.{
  ListNode, Linked, set_prev, set_next, end_unless, Kept, keep_node, drop_node, trim_loop, trim_to,
  ordered_keys,
}
use invar.Chain.Segments.{
  Element, first_key, last_key, Stretch, IsFresh, Distinct, Outside, Stretch-erase,
  Stretch-set_prev, Stretch-set_next, Stretch-set_prev_first, Stretch-set_next_last, append-Stretch,
}
use invar.Chain.Represent.{
  IsSound, erase-IsSound, set_prev-IsSound, set_next-IsSound, Represents, keys_of, last_key-snoc,
  IsFresh-append, append-IsFresh, Distinct-append, Distinct-middle, absent-set_prev,
  absent-set_next, absent-erase, ordered_keys-Represents,
}

-- The nodes of the elements stand in the map, whatever their links are.
Strewn : Dict ListNode → List Element → Type 0
Strewn m [] = Unit {0}
Strewn m (x ∷ xs) = ((p : Option Bytes) × (n : Option Bytes) × Stretch m p (x ∷ []) n) × Strewn m xs

Stretch-Strewn :
    (m : Dict ListNode) (prev : Option Bytes) (xs : List Element) (next : Option Bytes)
    → Stretch m prev xs next
    → Strewn m xs
unfolding Strewn
Stretch-Strewn m prev [] next h = tt
Stretch-Strewn m prev ((k, v) ∷ xs) next (here, rest) =
    ((prev, first_key xs next, (here, tt)), Stretch-Strewn m (some k) xs next rest)

-- A change that keeps the stretches of one element keeps what is strewn.
Strewn-erase :
    (k : Bytes) (m : Dict ListNode) (xs : List Element)
    → IsFresh k xs
    → Strewn m xs
    → Strewn (erase k m) xs
unfolding Strewn
Strewn-erase k m [] fresh h = tt
Strewn-erase k m (x ∷ xs) (ne, fresh) ((p, n, here), rest) =
    ((p, n, Stretch-erase k m p (x ∷ []) n (ne, tt) here), Strewn-erase k m xs fresh rest)

Outside-cons :
    (o : Option Bytes) (x : Element) (xs : List Element)
    → Outside o (x ∷ xs)
    → Outside o (x ∷ []) × Outside o xs
Outside-cons none x xs h = (tt, tt)
Outside-cons (some k) x xs (ne, fresh) = ((ne, tt), fresh)

Strewn-set_prev :
    (o link : Option Bytes) (m : Dict ListNode) (xs : List Element)
    → Outside o xs
    → Strewn m xs
    → Strewn (set_prev o link m) xs
unfolding Strewn
Strewn-set_prev o link m [] out h = tt
Strewn-set_prev o link m (x ∷ xs) out ((p, n, here), rest) =
    let (one, others) = Outside-cons o x xs out in
    (
      (p, n, Stretch-set_prev o link m p (x ∷ []) n one here),
      Strewn-set_prev o link m xs others rest,
    )

Strewn-set_next :
    (o link : Option Bytes) (m : Dict ListNode) (xs : List Element)
    → Outside o xs
    → Strewn m xs
    → Strewn (set_next o link m) xs
unfolding Strewn
Strewn-set_next o link m [] out h = tt
Strewn-set_next o link m (x ∷ xs) out ((p, n, here), rest) =
    let (one, others) = Outside-cons o x xs out in
    (
      (p, n, Stretch-set_next o link m p (x ∷ []) n one here),
      Strewn-set_next o link m xs others rest,
    )

-- In the middle of the loop, `ys` are kept and chained, and `xs` are still to be seen.
record Trimming (m : Dict ListNode) (ys xs : List Element) : Type 0 where
  chained : Stretch m none ys none
  strewn : Strewn m xs
  distinct : Distinct (ys ++ xs)
  whole : (k : Bytes) → IsFresh k (ys ++ xs) → lookup k m ≡ none
  sound : IsSound m

drop_node-Trimming :
    (ll : Linked) (ys : List Element) (k v : Bytes) (xs : List Element)
    → Trimming ll.nodes ys ((k, v) ∷ xs)
    → Trimming (drop_node k ll).nodes ys xs
unfolding drop_node Strewn
drop_node-Trimming ll ys k v xs r =
    let (fy, fx, d) = Distinct-middle ys k v xs r.distinct in
    record {
      chained = Stretch-erase k ll.nodes none ys none fy r.chained;
      strewn = Strewn-erase k ll.nodes xs fx r.strewn.1;
      distinct = d;
      whole = λ j h.
          let (a, b) = IsFresh-append j ys xs h in
          absent-erase k j ll.nodes (λ ne. r.whole j (append-IsFresh j ys ((k, v) ∷ xs) a (ne, b)));
      sound = erase-IsSound k ll.nodes r.sound;
    }

keep_node-Trimming :
    (ll : Linked) (ys : List Element) (k v : Bytes) (xs : List Element) (kept : Kept)
    → kept.prev ≡ last_key none ys
    → Trimming ll.nodes ys ((k, v) ∷ xs)
    → Trimming (keep_node k kept ll).nodes (ys ++ (k, v) ∷ []) xs
unfolding keep_node Strewn
keep_node-Trimming ll ys k v xs kept at r =
    let link : Option Bytes = last_key none ys in
    let one : List Element = (k, v) ∷ [] in
    let m1 : Dict ListNode = set_prev (some k) link ll.nodes in
    let m2 : Dict ListNode = set_next (some k) none m1 in
    let m3 : Dict ListNode = set_next link (some k) m2 in
    let (fy, fx, d) = Distinct-middle ys k v xs r.distinct in
    let (dy, dx, left, right) = Distinct-append ys ((k, v) ∷ xs) r.distinct in
    let (apart, behind) = Outside-cons link (k, v) xs right in
    let (p, n, here) = r.strewn.0 in
    let alone : Distinct one = (tt, tt) in
    let all : (ys ++ one) ++ xs ≡ ys ++ (k, v) ∷ xs = append_assoc ys one xs in
    subst
      (λ (o : Option Bytes).
        Trimming (set_next o (some k) (set_next (some k) none (set_prev (some k) o ll.nodes)))
          (ys ++ one) xs)
      (sym at)
      (record {
        chained =
            append-Stretch m3 none ys one none
              (Stretch-set_next_last (some k) m2 none ys none dy (
                Stretch-set_next (some k) none m1 none ys none fy
                  (Stretch-set_prev (some k) link ll.nodes none ys none fy r.chained)))
              (Stretch-set_next link (some k) m2 link one none apart (
                Stretch-set_next_last none m1 link one n alone
                  (Stretch-set_prev_first link ll.nodes p one n alone here)));
        strewn = Strewn-set_next link (some k) m2 xs behind (
            Strewn-set_next (some k) none m1 xs fx
              (Strewn-set_prev (some k) link ll.nodes xs fx r.strewn.1));
        distinct = subst Distinct (sym all) r.distinct;
        whole = λ j h. absent-set_next link (some k) j m2 (
            absent-set_next (some k) none j m1
              (absent-set_prev (some k) link j ll.nodes (r.whole j (subst (IsFresh j) all h))));
        sound =
            set_next-IsSound link (some k) m2
              (set_next-IsSound (some k) none m1 (set_prev-IsSound (some k) link ll.nodes r.sound));
      })

-- The elements of the indices from `start` to `stop`, where `i` is the index of the first.
within : ℕ → ℕ → ℕ → List Element → List Element
within start stop i [] = []
within start stop i (x ∷ xs) =
    let rest = within start stop (i + 1) xs in if ltb i start || ltb stop i then rest else x ∷ rest

within_cut :
    (start stop i a b : ℕ) (xs : List Element)
    → b ≡ start - i
    → a + b ≡ stop + 1 - i
    → within start stop i xs ≡ take a (drop b xs)
unfolding within
within_cut start stop i zero zero [] hb ha = refl
within_cut start stop i zero (suc b) [] hb ha = refl
within_cut start stop i (suc a) zero [] hb ha = refl
within_cut start stop i (suc a) (suc b) [] hb ha = refl
within_cut start stop i a (suc b) (x ∷ xs) hb ha =
    let out : (ltb i start || ltb stop i) ≡ true = ground arith in
    rw out (within_cut start stop (i + 1) a b xs (omega arith) (omega arith))
within_cut start stop i zero zero (x ∷ xs) hb ha =
    let out : (ltb i start || ltb stop i) ≡ true = ground arith in
    rw out (within_cut start stop (i + 1) zero zero xs (omega arith) (omega arith))
within_cut start stop i (suc a) zero (x ∷ xs) hb ha =
    let inside : (ltb i start || ltb stop i) ≡ false = ground arith in
    rw inside
      (ap (λ t. x ∷ t) (within_cut start stop (i + 1) a zero xs (omega arith) (omega arith)))

kept_of : List Element → Kept
kept_of ys = record {
  new_head = first_key ys none;
  new_tail = last_key none ys;
  prev = last_key none ys;
}

kept_snoc :
    (ys : List Element) (k v : Bytes)
    → kept_of (ys ++ (k, v) ∷ []) ≡ (
        let r : Kept = record {
          new_head = end_unless (first_key ys none) (some k) (first_key ys none);
          new_tail = some k;
          prev = some k;
        } in
        r)
unfolding kept_of
kept_snoc [] k v = refl
kept_snoc ((j, w) ∷ ys) k v =
    ap
      (λ (o : Option Bytes).
        let r : Kept = record { new_head = some j; new_tail = o; prev = o } in r)
      (last_key-snoc (some j) ys k v)

Trimmed : List Element → Kept × Linked → Type 0
Trimmed zs (kept, ll) = (kept ≡ kept_of zs) × Trimming ll.nodes zs []

Trimmed-if :
    (b : Bool) (ys fewer more : List Element) (outside inside : Kept × Linked)
    → Trimmed (ys ++ fewer) outside
    → Trimmed (ys ++ more) inside
    → Trimmed (ys ++ (if b then fewer else more)) (if b then outside else inside)
Trimmed-if true ys fewer more outside inside h g = h
Trimmed-if false ys fewer more outside inside h g = g

trim_loop-Trimmed :
    (start stop i : ℕ) (ys xs : List Element) (ll : Linked)
    → Trimming ll.nodes ys xs
    → Trimmed (ys ++ within start stop i xs) (trim_loop start stop i (keys_of xs) (kept_of ys) ll)
unfolding trim_loop within Trimmed kept_of
trim_loop-Trimmed start stop i ys [] ll r =
    subst (λ (zs : List Element). (kept_of ys ≡ kept_of zs) × Trimming ll.nodes zs [])
      (sym (append-nil ys)) (refl, r)
trim_loop-Trimmed start stop i ys ((k, v) ∷ xs) ll r =
    let rest : List Element = within start stop (i + 1) xs in
    let one : List Element = (k, v) ∷ [] in
    let kept : Kept = record {
      new_head = end_unless (first_key ys none) (some k) (first_key ys none);
      new_tail = some k;
      prev = some k;
    } in
    let ll' : Linked = keep_node k (kept_of ys) ll in
    let outside : Trimmed (ys ++ rest)
        (trim_loop start stop (i + 1) (keys_of xs) (kept_of ys) (drop_node k ll)) =
      trim_loop-Trimmed start stop (i + 1) ys xs (drop_node k ll)
        (drop_node-Trimming ll ys k v xs r) in
    let inside : Trimmed ((ys ++ one) ++ rest)
        (trim_loop start stop (i + 1) (keys_of xs) (kept_of (ys ++ one)) ll') =
      trim_loop-Trimmed start stop (i + 1) (ys ++ one) xs ll'
        (keep_node-Trimming ll ys k v xs (kept_of ys) (unfold kept_of in refl) r) in
    Trimmed-if (ltb i start || ltb stop i) ys rest ((k, v) ∷ rest)
      (trim_loop start stop (i + 1) (keys_of xs) (kept_of ys) (drop_node k ll))
      (trim_loop start stop (i + 1) (keys_of xs) kept ll') outside
      (subst
        (λ (c : Kept).
          Trimmed (ys ++ (k, v) ∷ rest) (trim_loop start stop (i + 1) (keys_of xs) c ll'))
        (kept_snoc ys k v)
        (subst
          (λ (zs : List Element).
            Trimmed zs (trim_loop start stop (i + 1) (keys_of xs) (kept_of (ys ++ one)) ll'))
          (append_assoc ys one rest) inside))

-- `trim_to` on a list that stands for a sequence leaves the elements of the indices from `start` to
-- `stop`, where neither is past the end, nor `start` past `stop`, and the length fits in 32 bits.
pub trim_to-Represents :
    (ll : Linked) (xs : List Element) (start stop : ℕ)
    → Represents ll xs
    → start ≤ stop
    → stop < length xs
    → length xs < 2 ^ 32
    → Represents (trim_to start stop ll) (take (stop - start + 1) (drop start xs))
unfolding trim_to kept_of Trimmed
trim_to-Represents ll xs start stop r ordered inside small =
    let zs : List Element = take (stop - start + 1) (drop start xs) in
    let (kept, t) : Trimmed zs (trim_loop start stop 0 (ordered_keys ll) (kept_of []) ll) =
      subst (λ (ks : List Bytes). Trimmed zs (trim_loop start stop 0 ks (kept_of []) ll))
        (sym (ordered_keys-Represents ll xs r))
        (subst
          (λ (ws : List Element). Trimmed ws (trim_loop start stop 0 (keys_of xs) (kept_of []) ll))
          (within_cut start stop 0 (stop - start + 1) start xs (omega arith) (omega arith))
          (trim_loop-Trimmed start stop 0 [] xs ll (record {
            chained = tt;
            strewn = Stretch-Strewn ll.nodes none xs none r.chained;
            distinct = r.distinct;
            whole = r.whole;
            sound = r.sound;
          }))) in
    record {
      chained = t.chained;
      distinct = subst Distinct (append-nil zs) t.distinct;
      whole = λ k h. t.whole k (subst (IsFresh k) (sym (append-nil zs)) h);
      at_head = ap (λ (c : Kept). c.new_head) kept;
      at_tail = ap (λ (c : Kept). c.new_tail) kept;
      counted = omega (arith, length-take (stop - start + 1) (drop start xs), length-drop start xs);
      sound = t.sound;
    }
