-- ===== src/Chain/Store.antt =====
-- src/redis/list.rs: a list in the store, which is a sentinel with the size and the two ends under the
-- public key, and an entry for each node under the private prefix. `while` over the stored chain takes
-- as many rounds as it is given: each of them reads a node not seen before.
use invar.Prelude.{
  ℕ, zero, suc, ◌-◌, ◌*◌, Bool, true, Option, none, some, List, [], ◌∷◌, ◌++◌, length, map, take,
  drop, ltb, ◌==◌, ◌&&◌, if◌then◌else◌, Result, ok, err, ◌>>=◌, Bytes, to_be_bytes, from_be_bytes,
}
use invar.Prelude.Dicts.{Dict, put, has_key}
use invar.Kv.{
  Tx, key_not_found, Entry, Item, new_entry, with_metadata, DbError, kv, wrong_type, from_kv,
}
use invar.Namespace.{ElementPrefix, base_type, payload, write_sentinel}
use invar.Bitmap.{zeros}
use invar.Chain.{ListNode, Linked}

abbrev pub key_length : ℕ
key_length = 16

abbrev pub sentinel_length : ℕ
sentinel_length = 36

abbrev pub type_list : ℕ
type_list = 1

abbrev pub is_zero_key : Bytes → Bool
is_zero_key [] = true
is_zero_key (b ∷ bs) = (b == 0) && is_zero_key bs

unfoldable pub to_opt_key : Bytes → Option Bytes
to_opt_key bytes = if is_zero_key bytes then none else some bytes

-- `unwrap_or([0u8; KEY_LENGTH])`
unfoldable pub key_bytes : Option Bytes → Bytes
key_bytes none = zeros key_length
key_bytes (some k) = k

unfoldable pub node_key : Bytes → Bytes → Bytes
node_key prefix k = prefix ++ b':' ∷ k

-- The value and the two links that a stored node holds.
unfoldable pub decode_node : Bytes → Bytes → Result DbError ListNode
unfolding to_opt_key
decode_node k val =
    let split = length val - 2 * key_length in
    let links = drop split val in
    if ltb (length val) (2 * key_length)
    then err (kv key_not_found)
    else ok record {
      key = k;
      value = take split val;
      prev = to_opt_key (take key_length links);
      next = to_opt_key (drop key_length links);
    }

unfoldable pub encode_node : ListNode → Bytes
unfolding key_bytes
encode_node n = n.value ++ (key_bytes n.prev ++ key_bytes n.next)

pub record Sentinel : Type 0 where
  pub size : ℕ
  pub head : Bytes
  pub tail : Bytes

unfoldable pub sentinel_fields : Bytes → Result DbError Sentinel
sentinel_fields val =
    if ltb (length val) sentinel_length
    then err (kv key_not_found)
    else ok record {
      size = from_be_bytes (take 4 val);
      head = take key_length (drop 4 val);
      tail = take key_length (drop 20 val);
    }

unfoldable pub decode_sentinel : Item → Result DbError Sentinel
unfolding payload sentinel_fields
decode_sentinel item =
    if base_type item.meta == type_list then payload item >>= sentinel_fields else err wrong_type

unfoldable pub sentinel_bytes : Option Bytes → Option Bytes → ℕ → Bytes
unfolding key_bytes
sentinel_bytes head tail size = to_be_bytes size ++ (key_bytes head ++ key_bytes tail)

-- Links to nodes that are not held are dropped.
unfoldable pub known : Dict ListNode → Option Bytes → Option Bytes
known nodes none = none
known nodes (some k) = if has_key k nodes then some k else none

unfoldable pub resolve_links : Dict ListNode → Dict ListNode
unfolding known
resolve_links nodes =
    map
      (λ (e : Bytes × ListNode).
        (e.0, record e.1 { prev = known nodes e.1.prev; next = known nodes e.1.next }))
      nodes

module _ (t : Tx) where
  open t use {State, get, set, delete}

  unfoldable pub read_sentinel : State → Bytes → Result DbError Sentinel
  unfolding decode_sentinel
  read_sentinel s public_key = from_kv (get s public_key) >>= decode_sentinel

  unfoldable pub write_list_sentinel :
      ℕ → State → Bytes → Option Bytes → Option Bytes → ℕ → ElementPrefix → Result DbError State
  unfolding sentinel_bytes
  write_list_sentinel now s public_key head tail size prefix =
      write_sentinel t now s public_key (sentinel_bytes head tail size) type_list prefix

  unfoldable pub load_node : State → Bytes → Bytes → Result DbError ListNode
  unfolding decode_node node_key
  load_node s prefix k = from_kv (get s (node_key prefix k)) >>= λ item. decode_node k item.value

  -- The walk over the stored nodes, from `current` on.
  unfoldable pub load_nodes :
      ℕ → State → Bytes → Option Bytes → Dict ListNode → Result DbError (Dict ListNode)
  unfolding load_node
  load_nodes zero s prefix current nodes = ok nodes
  load_nodes (suc rounds) s prefix none nodes = ok nodes
  load_nodes (suc rounds) s prefix (some k) nodes =
      let rest = load_node s prefix k >>= λ n. load_nodes rounds s prefix n.next (put k n nodes) in
      if has_key k nodes then ok nodes else rest

  unfoldable pub load_list : ℕ → State → Bytes → Bytes → Result DbError Linked
  unfolding read_sentinel load_nodes resolve_links to_opt_key
  load_list rounds s public_key prefix = read_sentinel s public_key >>= λ sentinel.
      load_nodes rounds s prefix (to_opt_key sentinel.head) [] >>= λ nodes. ok record {
        size = sentinel.size;
        head = known nodes (some sentinel.head);
        tail = known nodes (some sentinel.tail);
        nodes = resolve_links nodes;
        removed = [];
      }

  unfoldable pub delete_keys : State → Bytes → List Bytes → Result DbError State
  unfolding node_key
  delete_keys s prefix [] = ok s
  delete_keys s prefix (k ∷ ks) =
      from_kv (delete s (node_key prefix k)) >>= λ s'. delete_keys s' prefix ks

  unfoldable pub delete_removed_nodes : State → Bytes → Linked → Result DbError State
  unfolding delete_keys
  delete_removed_nodes s prefix ll = delete_keys s prefix ll.removed

  unfoldable pub delete_all_nodes : State → Bytes → Linked → Result DbError State
  unfolding delete_removed_nodes
  delete_all_nodes s prefix ll = delete_removed_nodes s prefix ll >>= λ s'.
      delete_keys s' prefix (map (λ (e : Bytes × ListNode). e.0) ll.nodes)

  unfoldable pub node_entry : Bytes → ListNode → Entry
  unfolding node_key encode_node new_entry with_metadata
  node_entry prefix n = with_metadata (new_entry (node_key prefix n.key) (encode_node n)) type_list

  unfoldable pub store_nodes : State → Bytes → Dict ListNode → Result DbError State
  unfolding node_entry
  store_nodes s prefix [] = ok s
  store_nodes s prefix ((k, n) ∷ nodes) =
      from_kv (set s (node_entry prefix n)) >>= λ s'. store_nodes s' prefix nodes

  unfoldable pub persist_list : ℕ → State → Bytes → ElementPrefix → Linked → Result DbError State
  unfolding write_list_sentinel delete_removed_nodes store_nodes
  persist_list now s public_key prefix ll =
      write_list_sentinel now s public_key ll.head ll.tail ll.size prefix >>= λ s1.
      delete_removed_nodes s1 prefix.bytes ll >>= λ s2. store_nodes s2 prefix.bytes ll.nodes
