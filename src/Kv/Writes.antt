-- ===== src/Kv/Writes.antt =====
-- src/kv/kv.rs and `set_keeping_ttl` of src/redis/common/mod.rs: what is in the store after a write
-- that keeps the time to live.
use invar.Prelude.{
  ℕ, ◌<◌, ◌+◌, ◌-◌, ◌==◌, ◌≡◌, ◌∙◌, refl, sym, ap, true, false, some, Result, ok, err, arith,
}
use invar.Kv.{
  Tx, KvError, key_not_found, conflict, db_closed, undefined, Entry, Item, with_ttl, item_ttl,
  is_expired, keep_ttl_of, from_kv, set_over, set_keeping_ttl,
}

pub keep_ttl_of_same :
    (now : ℕ) (e : Entry) (i : Item)
    → ((keep_ttl_of now e i).key ≡ e.key)
      × ((keep_ttl_of now e i).value ≡ e.value)
      × ((keep_ttl_of now e i).meta ≡ e.meta)
unfolding keep_ttl_of
keep_ttl_of_same now e i = ground arith

-- An entry written over an item ends when the item does, if the item has time left; over an item that
-- expired since it was read the entry has the time to live zero, which is none at all.
pub keep_ttl_of_deadline :
    (now ts : ℕ) (e : Entry) (i : Item)
    → i.expire_ts ≡ some ts
    → (is_expired now i ≡ false
        → (0 < (keep_ttl_of now e i).ttl) × (now + (keep_ttl_of now e i).ttl ≡ ts))
      × (is_expired now i ≡ true → (keep_ttl_of now e i).ttl ≡ 0)
unfolding keep_ttl_of is_expired item_ttl with_ttl
keep_ttl_of_deadline now ts e i h = rw h ((λ live. deadline live), (λ over. ground arith))
  where
    deadline : (ts - now == 0) ≡ false → (0 < ts - now) × (now + (ts - now) ≡ ts)
    deadline live = ground arith

module _ (t : Tx) where
  open t use {State, get, set}

  pub from_kv_ok : (r : Result KvError State) (s : State) → from_kv r ≡ ok s → r ≡ ok s
  from_kv_ok (ok a) s h = cc
  from_kv_ok (err e) s h = cc

  abbrev pub Sets : State → State → Entry → Type 0
  Sets s s' e =
      (e' : Entry) × (set s e' ≡ ok s')
      × (e'.key ≡ e.key)
      × (e'.value ≡ e.value)
      × (e'.meta ≡ e.meta)

  set_over_inv :
      (now : ℕ) (s s' : State) (e : Entry) (r : Result KvError Item)
      → set_over t now s e r ≡ ok s'
      → Sets s s' e
  unfolding set_over
  set_over_inv now s s' e (ok item) h =
      let (k, v, m) = keep_ttl_of_same now e item in (keep_ttl_of now e item, h, k, v, m)
  set_over_inv now s s' e (err key_not_found) h = (e, h, refl, refl, refl)
  set_over_inv now s s' e (err conflict) h = cc
  set_over_inv now s s' e (err db_closed) h = cc
  set_over_inv now s s' e (err undefined) h = cc

  -- After a write the key holds the entry's value and metadata.
  pub set_keeping_ttl_holds :
      (now : ℕ) (s s' : State) (e : Entry)
      → set_keeping_ttl t now s e ≡ ok s'
      → (item : Item) × (get s' e.key ≡ ok item) × (item.value ≡ e.value) × (item.meta ≡ e.meta)
  set_keeping_ttl_holds now s s' e h =
      let (e', written, k, v, m) =
        set_over_inv now s s' e (get s e.key) (unfold set_keeping_ttl in h) in
      let held = t.get-set_self s s' e' written in
      (held.item, ap (get s') (sym k) ∙ held.found, held.same_value ∙ v, held.same_meta ∙ m)
