-- ===== src/Chain/RoundTrip.antt =====
-- A list that is persisted is loaded again.
use invar.Prelude.{
  ℕ, ◌^◌, ◌≤◌, ◌<◌, ◌≡◌, ◌∙◌, refl, sym, ap, subst, Bool, true, false, Option, none, some, List, [],
  ◌∷◌, length, ◌==◌, Result, ok, ◌>>=◌, Bytes, bytes_eq, bytes_eq→eq, arith,
}
use invar.Prelude.Dicts.{Dict, lookup, has_key}
use invar.Bitmap.{zeros}
use invar.Kv.{Tx, Item, DbError, from_kv}
use invar.Namespace.{ElementPrefix, base_type}
use invar.Namespace.Laws.{ReadsBack}
use invar.Namespace.Store.{write_sentinel_resolve}
use invar.Chain.{ListNode, Linked}
use invar.Chain.Segments.{Element, first_key, last_key, node_of, Stretch, IsFresh, Distinct}
use invar.Chain.Represent.{Represents, IsSound}
use invar.Chain.Store.{
  type_list, is_zero_key, key_bytes, to_opt_key, node_key, known, resolve_links, Sentinel,
  decode_sentinel, sentinel_fields, sentinel_bytes, read_sentinel, write_list_sentinel, load_nodes,
  load_list, delete_removed_nodes, store_nodes, persist_list,
}
use invar.Chain.Codec.{IsLink, to_opt_key-key_bytes, sentinel_fields-sentinel_bytes}
use invar.Chain.Saved.{bound, store_nodes_keeps, store_nodes_holds, delete_keys_keeps}
use invar.Chain.Loaded.{
  AllKeys, first-IsLink, Nodes, Stored, load_node_found, load_nodes-Nodes, resolve_links-Nodes,
  known_found, absent-has_key,
}

last-IsLink :
    (link : Option Bytes) (xs : List Element) → IsLink link → AllKeys xs → IsLink (last_key link xs)
last-IsLink link [] h keys = h
last-IsLink link ((k, v) ∷ xs) h (key, keys) = last-IsLink (some k) xs key keys

module _ (t : Tx) where
  open t use {State, get}

  -- The nodes that a map holds for a sequence are stored.
  stored_nodes :
      (s s' : State) (p : Bytes) (m : Dict ListNode) (prev : Option Bytes) (xs : List Element)
      → IsSound m
      → IsLink prev
      → AllKeys xs
      → Stretch m prev xs none
      → store_nodes t s p m ≡ ok s'
      → Stored t s' p prev xs
  stored_nodes s s' p m prev [] sound hp keys chained h = tt
  stored_nodes s s' p m prev ((k, v) ∷ xs) sound hp (key, keys) (here, chained) h =
      let n : ListNode = node_of (k, v) prev (first_key xs none) in
      let (item, found, value, own) = store_nodes_holds t s s' p m k n sound here h in
      (
        load_node_found t s' p n item found value hp (first-IsLink xs keys),
        stored_nodes s s' p m (some k) xs sound key keys chained h,
      )

  -- The sentinel that was written is read.
  read_sentinel_found :
      (s : State) (public_key body : Bytes) (item : Item) (prefix : ElementPrefix)
      → get s public_key ≡ ok item
      → ReadsBack item prefix.bytes body type_list prefix
      → read_sentinel t s public_key ≡ sentinel_fields body
  unfolding read_sentinel decode_sentinel
  read_sentinel_found s public_key body item prefix found reads =
      let listed : (base_type item.meta == type_list) ≡ true = rw reads.same_type refl in
      ap (λ r. from_kv r >>= decode_sentinel) found
      ∙ (rw listed (ap (λ r. r >>= sentinel_fields) reads.same_payload))

-- The end of a sequence is known among its nodes.
known_last :
    (m : Dict ListNode) (prev : Option Bytes) (xs : List Element)
    → Stretch m prev xs none
    → known m prev ≡ prev
    → known m (last_key prev xs) ≡ last_key prev xs
known_last m prev [] h e = e
known_last m prev ((k, v) ∷ xs) (here, h) e =
    known_last m (some k) xs h (known_found m k (node_of (k, v) prev (first_key xs none)) here)

known_head :
    (m : Dict ListNode) (xs : List Element)
    → Stretch m none xs none
    → known m (first_key xs none) ≡ first_key xs none
known_head m [] h = unfold known in refl
known_head m ((k, v) ∷ xs) (here, h) =
    known_found m k (node_of (k, v) none (first_key xs none)) here

-- The zero key, which stands for no link, is the key of no element.
zero-IsFresh : (xs : List Element) → AllKeys xs → IsFresh (zeros 16) xs
zero-IsFresh [] h = tt
zero-IsFresh ((k, v) ∷ xs) ((long, nonzero), h) =
    (apart (bytes_eq (zeros 16) k) refl, zero-IsFresh xs h)
  where
    apart : (b : Bool) → bytes_eq (zeros 16) k ≡ b → bytes_eq (zeros 16) k ≡ false
    apart false e = e
    apart true e =
        let zero_k : is_zero_key k ≡ true = ap is_zero_key (sym (bytes_eq→eq (zeros 16) k e)) in
        absurd (no_both (sym zero_k ∙ nonzero))
      where
        no_both : true ≡ false → ⊥
        no_both x = cc

-- A stored link is known again.
known_stored :
    (m : Dict ListNode) (o : Option Bytes)
    → lookup (zeros 16) m ≡ none
    → known m o ≡ o
    → known m (some (key_bytes o)) ≡ o
known_stored m (some k) absent e = unfold key_bytes in e
known_stored m none absent e =
    let missing : has_key (zeros 16) m ≡ false = absent-has_key (zeros 16) m absent in
    let step : known m (some (zeros 16)) ≡ none = unfold known in rw missing refl in
    unfold key_bytes in step

module _ (t : Tx) (rounds : ℕ) where
  open t use {State, get}

  -- What the load gives for a stored sequence.
  loaded :
      (s : State) (public_key p : Bytes) (xs : List Element) (size : ℕ)
      → AllKeys xs
      → Distinct xs
      → length xs ≤ rounds
      → size ≡ length xs
      → read_sentinel t s public_key
        ≡ ok (record {
          size = size;
          head = key_bytes (first_key xs none);
          tail = key_bytes (last_key none xs);
        })
      → Stored t s p none xs
      → (ll : Linked) × (load_list t rounds s public_key p ≡ ok ll) × Represents ll xs
  loaded s public_key p xs size keys distinct enough counted sentinel stored =
      let head : Bytes = key_bytes (first_key xs none) in
      let tail : Bytes = key_bytes (last_key none xs) in
      let (m, walked, nodes) =
        load_nodes-Nodes t rounds s p [] xs [] enough tt (λ k h. unfold lookup in refl) tt distinct
          stored in
      let good : Nodes (resolve_links m) xs = resolve_links-Nodes m xs nodes in
      let ll : Linked = record {
        size = size;
        head = known m (some head);
        tail = known m (some tail);
        nodes = resolve_links m;
        removed = [];
      } in
      let absent : lookup (zeros 16) m ≡ none = nodes.whole (zeros 16) (zero-IsFresh xs keys) in
      let start : to_opt_key head ≡ first_key xs none =
        to_opt_key-key_bytes (first_key xs none) (first-IsLink xs keys) in
      let walk : Sentinel → Result DbError Linked = λ sentinel.
        load_nodes t rounds s p (to_opt_key sentinel.head) [] >>= λ nodes. ok record {
          size = sentinel.size;
          head = known nodes (some sentinel.head);
          tail = known nodes (some sentinel.tail);
          nodes = resolve_links nodes;
          removed = [];
        } in
      let built : Dict ListNode → Result DbError Linked = λ nodes. ok record {
        size = size;
        head = known nodes (some head);
        tail = known nodes (some tail);
        nodes = resolve_links nodes;
        removed = [];
      } in
      let opened : load_list t rounds s public_key p ≡ (read_sentinel t s public_key >>= walk) =
        unfold load_list in refl in
      (
        ll,
        opened
            ∙ ap (λ r. r >>= walk) sentinel
            ∙ ap (λ (o : Option Bytes). load_nodes t rounds s p o [] >>= built) start
            ∙ ap (λ r. r >>= built) walked,
        record {
          chained = good.chained;
          distinct = distinct;
          whole = good.whole;
          at_head = known_stored m (first_key xs none) absent (known_head m xs nodes.chained);
          at_tail =
              known_stored m (last_key none xs) absent
                (known_last m none xs nodes.chained (unfold known in refl));
          counted = counted;
          sound = good.sound;
        },
      )

  -- The sentinel stands under the public key once the nodes are written.
  pub sentinel_kept :
      (now : ℕ) (s s' : State) (public_key legacy : Bytes) (prefix : ElementPrefix) (ll : Linked)
      → length prefix.bytes < 2 ^ 32
      → (prefix.explicit ≡ false → prefix.bytes ≡ legacy)
      → ((k : Bytes) → bytes_eq (node_key prefix.bytes k) public_key ≡ false)
      → persist_list t now s public_key prefix ll ≡ ok s'
      → (item : Item) × (get s' public_key ≡ ok item)
        × ReadsBack item legacy (sentinel_bytes ll.head ll.tail ll.size) type_list prefix
        × ((s2 : State) × (store_nodes t s2 prefix.bytes ll.nodes ≡ ok s'))
  sentinel_kept now s s' public_key legacy prefix ll fits name apart h =
      let p : Bytes = prefix.bytes in
      let (s1, wrote, rest) =
        bound t (write_list_sentinel t now s public_key ll.head ll.tail ll.size prefix)
          (λ s1. delete_removed_nodes t s1 p ll >>= λ s2. store_nodes t s2 p ll.nodes) s'
          (unfold persist_list in h) in
      let (s2, deleted, stored) =
        bound t (delete_removed_nodes t s1 p ll) (λ s2. store_nodes t s2 p ll.nodes) s' rest in
      let body : Bytes = sentinel_bytes ll.head ll.tail ll.size in
      let (resolves, (item, found, reads)) =
        write_sentinel_resolve t now s s1 public_key legacy body type_list prefix
          (unfold write_list_sentinel in wrote) (omega arith) fits name in
      let still : get s' public_key ≡ ok item =
        store_nodes_keeps t s2 s' p ll.nodes public_key apart stored
        ∙ delete_keys_keeps t s1 s2 p ll.removed public_key apart
            (unfold delete_removed_nodes in deleted)
        ∙ found in
      (item, still, reads, (s2, stored))

  -- A list that stands for a sequence, once persisted, is loaded as a list for the same sequence, under
  -- the prefix that it was persisted with. Its keys have 16 bytes and are not zero, its length and that
  -- of the prefix fit in 32 bits, no node key is the public key, and the load may take as many rounds as
  -- the sequence has elements.
  pub load_list-persist_list :
      (now : ℕ) (s s' : State) (public_key : Bytes) (prefix : ElementPrefix) (ll : Linked)
      (xs : List Element)
      → Represents ll xs
      → AllKeys xs
      → length xs < 2 ^ 32
      → length prefix.bytes < 2 ^ 32
      → ((k : Bytes) → bytes_eq (node_key prefix.bytes k) public_key ≡ false)
      → length xs ≤ rounds
      → persist_list t now s public_key prefix ll ≡ ok s'
      → (ll' : Linked) × (load_list t rounds s' public_key prefix.bytes ≡ ok ll')
        × Represents ll' xs
  load_list-persist_list now s s' public_key prefix ll xs r keys small fits apart enough h =
      let p : Bytes = prefix.bytes in
      let body : Bytes = sentinel_bytes ll.head ll.tail ll.size in
      let (item, still, reads, (s2, stored)) =
        sentinel_kept now s s' public_key p prefix ll fits (λ e. refl) apart h in
      let head_link : IsLink ll.head = subst IsLink (sym r.at_head) (first-IsLink xs keys) in
      let tail_link : IsLink ll.tail = subst IsLink (sym r.at_tail) (last-IsLink none xs tt keys) in
      let in_range : ll.size < 2 ^ 32 = rw r.counted small in
      let fields : Option Bytes → Option Bytes → Result DbError Sentinel =
        λ a b. ok record { size = ll.size; head = key_bytes a; tail = key_bytes b } in
      let sentinel : read_sentinel t s' public_key ≡ fields (first_key xs none) (last_key none xs) =
        read_sentinel_found t s' public_key body item prefix still reads
        ∙ sentinel_fields-sentinel_bytes ll.head ll.tail ll.size head_link tail_link in_range
        ∙ ap (λ (o : Option Bytes). fields o ll.tail) r.at_head
        ∙ ap (fields (first_key xs none)) r.at_tail in
      loaded s' public_key p xs ll.size keys r.distinct enough r.counted sentinel
        (stored_nodes t s2 s' p ll.nodes none xs r.sound tt keys r.chained stored)
