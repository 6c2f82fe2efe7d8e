-- ===== src/Chain/Saved.antt =====
-- What `persist_list` leaves in the store.
use invar.Prelude.{
  ◌≡◌, ◌∙◌, refl, sym, ap, false, Option, none, some, List, [], ◌∷◌, Result, ok, err, ◌>>=◌, Bytes,
  bytes_eq, bytes_eq→eq, bytes_eq_sym, Bool-cases, inl, inr, arith,
}
use invar.Prelude.Dicts.{Dict, lookup}
use invar.Kv.{Tx, Item, DbError, from_kv}
use invar.Kv.Writes.{from_kv_ok}
use invar.Chain.{ListNode}
use invar.Chain.Represent.{IsSound}
use invar.Chain.Store.{node_key, node_entry, encode_node, store_nodes, delete_keys}

node_key_apart : (p j k : Bytes) → bytes_eq (node_key p j) (node_key p k) ≡ bytes_eq j k
unfolding node_key
node_key_apart [] j k = ground arith
node_key_apart (b ∷ p) j k = ground (arith, node_key_apart p j k)

module _ (t : Tx) where
  open t use {State, get, set, delete}

  pub bound :
      {A B : Type 0} (r : Result DbError A) (next : A → Result DbError B) (b : B)
      → (r >>= next) ≡ ok b
      → (a : A) × (r ≡ ok a) × (next a ≡ ok b)
  bound (ok a) next b h = (a, refl, h)
  bound (err e) next b h = cc

  same_state : (a b : State) → ◌≡◌ {A = Result DbError State} (ok a) (ok b) → a ≡ b
  same_state a b h = cc

  -- Writing a node leaves every other key.
  written_other :
      (s s' : State) (p : Bytes) (n : ListNode) (key : Bytes)
      → from_kv (set s (node_entry t p n)) ≡ ok s'
      → bytes_eq (node_key p n.key) key ≡ false
      → get s' key ≡ get s key
  written_other s s' p n key h apart =
      t.get-set_ne s s' (node_entry t p n) key (from_kv_ok t (set s (node_entry t p n)) s' h)
        (unfold node_entry in apart)

  pub store_nodes_keeps :
      (s s' : State) (p : Bytes) (m : Dict ListNode) (key : Bytes)
      → ((k : Bytes) → bytes_eq (node_key p k) key ≡ false)
      → store_nodes t s p m ≡ ok s'
      → get s' key ≡ get s key
  unfolding store_nodes
  store_nodes_keeps s s' p [] key apart h = ap (λ (s : State). get s key) (sym (same_state s s' h))
  store_nodes_keeps s s' p ((k, n) ∷ m) key apart h =
      let (s1, first, rest) =
        bound (from_kv (set s (node_entry t p n))) (λ s1. store_nodes t s1 p m) s' h in
      store_nodes_keeps s1 s' p m key apart rest ∙ written_other s s1 p n key first (apart n.key)

  -- A node whose key the map does not have is left.
  absent_keeps :
      (s s' : State) (p : Bytes) (m : Dict ListNode) (k : Bytes)
      → IsSound m
      → lookup k m ≡ none
      → store_nodes t s p m ≡ ok s'
      → get s' (node_key p k) ≡ get s (node_key p k)
  unfolding store_nodes lookup
  absent_keeps s s' p [] k sound out h =
      ap (λ (s : State). get s (node_key p k)) (sym (same_state s s' h))
  absent_keeps s s' p ((j, n) ∷ m) k (own, absent, sound) out h =
      let (s1, first, rest) =
        bound (from_kv (set s (node_entry t p n))) (λ s1. store_nodes t s1 p m) s' h in
      elim (Bool-cases (bytes_eq k j)) [
        | inl e ↦ absurd (some_none n (rw e at out))
        | inr e ↦
            absent_keeps s1 s' p m k sound (rw e at out) rest
            ∙ written_other s s1 p n (node_key p k) first (
                node_key_apart p n.key k
                ∙ ap (λ (x : Bytes). bytes_eq x k) own
                ∙ bytes_eq_sym j k
                ∙ e)
      ]
    where
      some_none : (n : ListNode) → ◌≡◌ {A = Option ListNode} (some n) none → ⊥
      some_none n e = cc

  -- Every node of the map is stored under its key.
  pub store_nodes_holds :
      (s s' : State) (p : Bytes) (m : Dict ListNode) (k : Bytes) (n : ListNode)
      → IsSound m
      → lookup k m ≡ some n
      → store_nodes t s p m ≡ ok s'
      → (item : Item) × (get s' (node_key p k) ≡ ok item)
        × (item.value ≡ encode_node n)
        × (n.key ≡ k)
  unfolding store_nodes lookup
  store_nodes_holds s s' p [] k n sound found h = cc
  store_nodes_holds s s' p ((j, x) ∷ m) k n (own, absent, sound) found h =
      let (s1, first, rest) =
        bound (from_kv (set s (node_entry t p x))) (λ s1. store_nodes t s1 p m) s' h in
      elim (Bool-cases (bytes_eq k j)) [
        | inl e ↦
            let same : x ≡ n = cc (rw e at found) in
            let kj : k ≡ j = bytes_eq→eq k j e in
            let held =
              t.get-set_self s s1 (node_entry t p x)
                (from_kv_ok t (set s (node_entry t p x)) s1 first) in
            let here : node_key p k ≡ node_key p x.key = ap (node_key p) (kj ∙ sym own) in
            (
              held.item,
              absent_keeps s1 s' p m k sound (ap (λ (y : Bytes). lookup y m) kj ∙ absent) rest
                  ∙ ap (get s1) here
                  ∙ (unfold node_entry in held.found),
              (unfold node_entry in held.same_value) ∙ ap encode_node same,
              ap (λ (y : ListNode). y.key) (sym same) ∙ own ∙ sym kj,
            )
        | inr e ↦ store_nodes_holds s1 s' p m k n sound (rw e at found) rest
      ]

  pub delete_keys_keeps :
      (s s' : State) (p : Bytes) (ks : List Bytes) (key : Bytes)
      → ((k : Bytes) → bytes_eq (node_key p k) key ≡ false)
      → delete_keys t s p ks ≡ ok s'
      → get s' key ≡ get s key
  unfolding delete_keys
  delete_keys_keeps s s' p [] key apart h = ap (λ (s : State). get s key) (sym (same_state s s' h))
  delete_keys_keeps s s' p (k ∷ ks) key apart h =
      let (s1, first, rest) =
        bound (from_kv (delete s (node_key p k))) (λ s1. delete_keys t s1 p ks) s' h in
      delete_keys_keeps s1 s' p ks key apart rest
      ∙ t.get-delete_ne s s1 (node_key p k) key (from_kv_ok t (delete s (node_key p k)) s1 first)
          (apart k)
