-- ===== src/Namespace/Store.antt =====
-- Sentinels in a transaction: what a command writes is what the next one resolves.
use invar.Prelude.{
  ℕ, ◌<◌, ◌^◌, ◌≡◌, ◌∙◌, refl, sym, ap, Bool, false, not, length, ◌&&◌, Result, ok, err, Bytes,
  arith, Bool-cases, inl, inr,
}
use invar.Kv.{
  Tx, KvError, key_not_found, conflict, db_closed, undefined, Entry, Item, keep_ttl_of, DbError,
  redis, namespace_dropped, from_kv,
}
use invar.Namespace.{
  is_namespaced, ElementPrefix, encode_sentinel, resolve_prefix, sentinel_entry, write_over,
  write_sentinel,
}
use invar.Namespace.Laws.{ReadsBack, encode_sentinel_round}

-- The entry that is written in place of an item has its time left, and is otherwise as given.
pub keep_ttl_of_same :
    (now : ℕ) (e : Entry) (i : Item)
    → ((keep_ttl_of now e i).key ≡ e.key)
      × ((keep_ttl_of now e i).value ≡ e.value)
      × ((keep_ttl_of now e i).meta ≡ e.meta)
unfolding keep_ttl_of
keep_ttl_of_same now e i = ground arith

module _ (t : Tx) where
  open t use {State, get, set}

  pub from_kv_ok : (r : Result KvError State) (s : State) → from_kv r ≡ ok s → r ≡ ok s
  from_kv_ok (ok a) s h = cc
  from_kv_ok (err e) s h = cc

  abbrev Sets : State → State → Entry → Type 0
  Sets s s' e =
      (e' : Entry) × (set s e' ≡ ok s')
      × (e'.key ≡ e.key)
      × (e'.value ≡ e.value)
      × (e'.meta ≡ e.meta)

  write_over_inv :
      (now : ℕ) (s s' : State) (e : Entry) (explicit : Bool) (r : Result KvError Item)
      → write_over t now s e explicit r ≡ ok s'
      → Sets s s' e
  unfolding write_over
  write_over_inv now s s' e explicit (ok item) h =
      elim (Bool-cases (is_namespaced item.meta && not explicit)) [
        | inl b ↦
            let refused : ◌≡◌ {A = Result DbError State} (err (redis namespace_dropped)) (ok s') =
              rw b at h in
            cc
        | inr b ↦
            let (k, v, m) = keep_ttl_of_same now e item in
            (
              keep_ttl_of now e item,
              from_kv_ok (set s (keep_ttl_of now e item)) s' (rw b at h),
              k,
              v,
              m,
            )
      ]
  write_over_inv now s s' e explicit (err key_not_found) h =
      (e, from_kv_ok _ s' h, refl, refl, refl)
  write_over_inv now s s' e explicit (err conflict) h = cc
  write_over_inv now s s' e explicit (err db_closed) h = cc
  write_over_inv now s s' e explicit (err undefined) h = cc

  -- After a successful write of a sentinel, the key resolves to the prefix that was written, and its
  -- item yields the payload and the type byte. The type byte is below 128, the length of the prefix fits
  -- in 32 bits, and the prefix is recorded or is the one of the name.
  pub write_sentinel_resolve :
      (now : ℕ) (s s' : State) (public_key legacy body : Bytes) (ty : ℕ) (prefix : ElementPrefix)
      → write_sentinel t now s public_key body ty prefix ≡ ok s'
      → ty < 128
      → length prefix.bytes < 2 ^ 32
      → (prefix.explicit ≡ false → prefix.bytes ≡ legacy)
      → (resolve_prefix t s' public_key legacy ≡ ok prefix)
        × ((item : Item) × (get s' public_key ≡ ok item) × ReadsBack item legacy body ty prefix)
  write_sentinel_resolve now s s' public_key legacy body ty prefix h small fits name =
      let (e, written, k, v, m) =
        write_over_inv now s s' (sentinel_entry public_key body ty prefix) prefix.explicit
          (get s public_key) (unfold write_sentinel in h) in
      let held = t.get-set_self s s' e written in
      let found : get s' public_key ≡ ok held.item =
        ap (get s') (sym (k ∙ entry_key)) ∙ held.found in
      let reads : ReadsBack held.item legacy body ty prefix =
        encode_sentinel_round held.item legacy body ty prefix
          (held.same_value ∙ v ∙ entry_value, held.same_meta ∙ m ∙ entry_meta) small fits name in
      (
        unfold resolve_prefix in rw (found, resolve_prefix) reads.same_prefix,
        (held.item, found, reads),
      )
    where
      entry_key : (sentinel_entry public_key body ty prefix).key ≡ public_key
      entry_key = unfold sentinel_entry in refl

      entry_value :
          (sentinel_entry public_key body ty prefix).value ≡ (encode_sentinel body ty prefix).0
      entry_value = unfold sentinel_entry in refl

      entry_meta :
          (sentinel_entry public_key body ty prefix).meta ≡ (encode_sentinel body ty prefix).1
      entry_meta = unfold sentinel_entry in refl
