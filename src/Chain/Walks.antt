-- ===== src/Chain/Walks.antt =====
-- src/redis/list.rs: the walks over a stored chain that move its nodes to another prefix or delete
-- them, for RENAME and DEL.
use invar.Prelude.{
  ℕ, zero, suc, ◌-◌, ◌*◌, length, drop, ltb, if◌then◌else◌, Result, ok, err, ◌>>=◌, Bytes,
}
use invar.Kv.{Tx, key_not_found, Item, new_entry, with_metadata, DbError, kv, from_kv}
use invar.Chain.Store.{key_length, is_zero_key, node_key, read_sentinel}

-- The forward link of a stored node, of any type.
unfoldable pub next_key : Bytes → Result DbError Bytes
next_key val =
    if ltb (length val) (2 * key_length)
    then err (kv key_not_found)
    else ok (drop (length val - key_length) val)

module _ (t : Tx) where
  open t use {State, get, set, delete}

  -- A walk over the chain, by the nodes that the sentinel counts, doing `act` at each of them.
  unfoldable pub walk_chain :
      (Bytes → Item → State → Result DbError State)
      → ℕ
      → State
      → Bytes
      → Bytes
      → Result DbError State
  unfolding next_key node_key
  walk_chain act zero s prefix current = ok s
  walk_chain act (suc size) s prefix current =
      let rest = from_kv (get s (node_key prefix current)) >>= λ item.
      next_key item.value >>= λ next.
      act current item s >>= λ s'. walk_chain act size s' prefix next in
      if is_zero_key current then ok s else rest

  unfoldable pub move_node : Bytes → Bytes → Bytes → Item → State → Result DbError State
  unfolding node_key new_entry with_metadata
  move_node from_prefix to_prefix k item s =
      from_kv (set s (with_metadata (new_entry (node_key to_prefix k) item.value) item.meta))
      >>= λ s1. from_kv (delete s1 (node_key from_prefix k))

  unfoldable pub move_nodes : State → Bytes → Bytes → Bytes → Result DbError State
  unfolding read_sentinel walk_chain move_node
  move_nodes s public_key from_prefix to_prefix = read_sentinel t s public_key >>= λ sentinel.
      walk_chain (move_node from_prefix to_prefix) sentinel.size s from_prefix sentinel.head

  unfoldable pub delete_nodes : State → Bytes → Bytes → Result DbError State
  unfolding read_sentinel walk_chain node_key
  delete_nodes s public_key node_prefix = read_sentinel t s public_key >>= λ sentinel.
      walk_chain (λ k item s. from_kv (delete s (node_key node_prefix k))) sentinel.size s
        node_prefix sentinel.head
