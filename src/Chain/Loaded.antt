-- ===== src/Chain/Loaded.antt =====
-- The walk over a stored chain gives the nodes of its elements.
use invar.Prelude.{
  ℕ, zero, suc, ◌≤◌, ◌≡◌, ◌∙◌, refl, sym, ap, subst, false, Option, none, some, List, [], ◌∷◌, ◌++◌,
  All, map, append_assoc, append-nil, length, ok, ◌>>=◌, Bytes, bytes_eq, Bool-cases, inl, inr,
  arith,
}
use mathlib.Core.Option
use invar.Prelude.Dicts.{Dict, lookup, put, has_key, lookup-put_self, lookup-put_ne}
use invar.Kv.{Tx, Item, from_kv}
use invar.Chain.{ListNode}
use invar.Chain.Segments.{
  Element, first_key, last_key, node_of, Stretch, IsFresh, Distinct, Stretch-frame, Stretch-put,
  append-Stretch,
}
use invar.Chain.Represent.{IsSound, last_key-snoc, IsFresh-append, Distinct-middle, put-IsSound}
use invar.Chain.Store.{
  node_key, encode_node, decode_node, load_node, load_nodes, known, resolve_links,
}
use invar.Chain.Codec.{IsKey, IsLink, decode_node-encode_node}

abbrev pub AllKeys : List Element → Type 0
AllKeys xs = All (λ (x : Element). IsKey x.0) xs

pub first-IsLink : (xs : List Element) → AllKeys xs → IsLink (first_key xs none)
first-IsLink [] h = tt
first-IsLink (x ∷ xs) (k, h) = k

-- The nodes of a map, for a sequence of elements.
pub record Nodes (m : Dict ListNode) (xs : List Element) : Type 0 where
  pub chained : Stretch m none xs none
  pub whole : (k : Bytes) → IsFresh k xs → lookup k m ≡ none
  pub sound : IsSound m

pub absent-has_key : (k : Bytes) (m : Dict ListNode) → lookup k m ≡ none → has_key k m ≡ false
unfolding has_key
absent-has_key k m h = rw (has_key, h) refl

module _ (t : Tx) where
  open t use {State, get}

  abbrev pub Stored : State → Bytes → Option Bytes → List Element → Type 0
  Stored s p prev [] = Unit {0}
  Stored s p prev ((k, v) ∷ xs) =
      (load_node t s p k ≡ ok (node_of (k, v) prev (first_key xs none))) × Stored s p (some k) xs

  pub load_node_found :
      (s : State) (p : Bytes) (n : ListNode) (item : Item)
      → get s (node_key p n.key) ≡ ok item
      → item.value ≡ encode_node n
      → IsLink n.prev
      → IsLink n.next
      → load_node t s p n.key ≡ ok n
  unfolding load_node
  load_node_found s p n item found value hp hn =
      ap (λ r. from_kv r >>= λ i. decode_node n.key i.value) found
      ∙ ap (decode_node n.key) value
      ∙ decode_node-encode_node n hp hn

  ended :
      (done : List Element) (acc : Dict ListNode)
      → Stretch acc none done none
      → ((k : Bytes) → IsFresh k done → lookup k acc ≡ none)
      → IsSound acc
      → Nodes acc (done ++ [])
  ended done acc chained whole sound =
      subst (Nodes acc) (sym (append-nil done))
        (record { chained = chained; whole = whole; sound = sound })

  step :
      (rounds : ℕ) (s : State) (p k : Bytes) (acc : Dict ListNode) (n : ListNode)
      → has_key k acc ≡ false
      → load_node t s p k ≡ ok n
      → load_nodes t (suc rounds) s p (some k) acc ≡ load_nodes t rounds s p n.next (put k n acc)
  unfolding load_nodes
  step rounds s p k acc n new found =
      rw new (ap (λ r. r >>= λ n. load_nodes t rounds s p n.next (put k n acc)) found)

  pub load_nodes-Nodes :
      (rounds : ℕ) (s : State) (p : Bytes) (done ys : List Element) (acc : Dict ListNode)
      → length ys ≤ rounds
      → Stretch acc none done (first_key ys none)
      → ((k : Bytes) → IsFresh k done → lookup k acc ≡ none)
      → IsSound acc
      → Distinct (done ++ ys)
      → Stored s p (last_key none done) ys
      → (m : Dict ListNode) × (load_nodes t rounds s p (first_key ys none) acc ≡ ok m)
        × Nodes m (done ++ ys)
  unfolding load_nodes
  load_nodes-Nodes zero s p done [] acc enough chained whole sound d h =
      (acc, refl, ended done acc chained whole sound)
  load_nodes-Nodes (suc rounds) s p done [] acc enough chained whole sound d h =
      (acc, refl, ended done acc chained whole sound)
  load_nodes-Nodes zero s p done (y ∷ ys) acc enough chained whole sound d h = absurd (omega arith)
  load_nodes-Nodes (suc rounds) s p done ((k, v) ∷ ys) acc enough chained whole sound d (here, h) =
      let n : ListNode = node_of (k, v) (last_key none done) (first_key ys none) in
      let (fd, fy, rest) = Distinct-middle done k v ys d in
      let same : (done ++ (k, v) ∷ []) ++ ys ≡ done ++ (k, v) ∷ ys =
        append_assoc done ((k, v) ∷ []) ys in
      let (m, found, nodes) =
        load_nodes-Nodes rounds s p (done ++ (k, v) ∷ []) ys (put k n acc) (omega arith)
          (append-Stretch (put k n acc) none done ((k, v) ∷ []) (first_key ys none)
            (Stretch-put k n acc none done (some k) fd chained) (lookup-put_self k n acc, tt))
          (λ j out.
            let (jd, (ne, u)) = IsFresh-append j done ((k, v) ∷ []) out in
            lookup-put_ne k j n acc ne ∙ whole j jd)
          (put-IsSound n acc sound) (subst Distinct (sym same) d)
          (subst (λ (o : Option Bytes). Stored s p o ys) (sym (last_key-snoc none done k v)) h) in
      (
        m,
        step rounds s p k acc n (absent-has_key k acc (whole k fd)) here ∙ found,
        subst (Nodes m) same nodes,
      )

-- Links to nodes that are there are kept.
lookup-map :
    (g : ListNode → ListNode) (k : Bytes) (m : Dict ListNode)
    → lookup k (map (λ (e : Bytes × ListNode). (e.0, g e.1)) m) ≡ Option.map g (lookup k m)
unfolding lookup
lookup-map g k [] = refl
lookup-map g k ((j, n) ∷ m) = elim (Bool-cases (bytes_eq k j)) [
  | inl e ↦ rw e refl
  | inr e ↦ rw e (lookup-map g k m)
]

abbrev resolved : Dict ListNode → ListNode → ListNode
resolved nodes n = record n { prev = known nodes n.prev; next = known nodes n.next }

pub known_found :
    (nodes : Dict ListNode) (k : Bytes) (n : ListNode)
    → lookup k nodes ≡ some n
    → known nodes (some k) ≡ some k
unfolding known has_key
known_found nodes k n h = rw (has_key, h) refl

known_first :
    (m : Dict ListNode) (prev : Option Bytes) (xs : List Element)
    → Stretch m prev xs none
    → known m (first_key xs none) ≡ first_key xs none
known_first m prev [] h = unfold known in refl
known_first m prev ((k, v) ∷ xs) (here, h) =
    known_found m k (node_of (k, v) prev (first_key xs none)) here

kept_links :
    (m : Dict ListNode) (prev : Option Bytes) (xs : List Element)
    → known m prev ≡ prev
    → Stretch m prev xs none
    → All (λ (x : Element). lookup x.0 (resolve_links m) ≡ lookup x.0 m) xs
kept_links m prev [] e h = tt
kept_links m prev ((k, v) ∷ xs) e (here, h) =
    let n : ListNode = node_of (k, v) prev (first_key xs none) in
    let next : known m (first_key xs none) ≡ first_key xs none = known_first m (some k) xs h in
    let same : resolved m n ≡ n =
      ap (λ (o : Option Bytes). node_of (k, v) o (known m (first_key xs none))) e
      ∙ ap (λ (o : Option Bytes). node_of (k, v) prev o) next in
    let mapped : lookup k (resolve_links m) ≡ Option.map (resolved m) (lookup k m) =
      unfold resolve_links in lookup-map (resolved m) k m in
    (
      mapped ∙ ap (Option.map (resolved m)) here ∙ ap (λ (x : ListNode). some x) same ∙ sym here,
      kept_links m (some k) xs (known_found m k n here) h,
    )

map-IsSound :
    (g : ListNode → ListNode) (m : Dict ListNode)
    → ((n : ListNode) → (g n).key ≡ n.key)
    → IsSound m
    → IsSound (map (λ (e : Bytes × ListNode). (e.0, g e.1)) m)
map-IsSound g [] keeps h = tt
map-IsSound g ((k, n) ∷ m) keeps (own, absent, h) =
    (keeps n ∙ own, lookup-map g k m ∙ ap (Option.map g) absent, map-IsSound g m keeps h)

pub resolve_links-Nodes :
    (m : Dict ListNode) (xs : List Element) → Nodes m xs → Nodes (resolve_links m) xs
resolve_links-Nodes m xs nodes = record {
  chained =
      Stretch-frame m (resolve_links m) none xs none
        (kept_links m none xs (unfold known in refl) nodes.chained) nodes.chained;
  whole = λ k out.
      let mapped : lookup k (resolve_links m) ≡ Option.map (resolved m) (lookup k m) =
        unfold resolve_links in lookup-map (resolved m) k m in
      mapped ∙ ap (Option.map (resolved m)) (nodes.whole k out);
  sound = unfold resolve_links in map-IsSound (resolved m) m (λ n. refl) nodes.sound;
}
