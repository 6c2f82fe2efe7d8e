-- ===== src/Bitmap/Store.antt =====
-- SETBIT and GETBIT in a transaction.
use invar.Prelude.{
  ℕ, ◌+◌, ◌<◌, ◌/◌, ◌≡◌, ◌∙◌, refl, sym, ap, All, ◌==◌, ◌>>=◌, Bool-cases, if◌then◌else◌, Result,
  ok, err, Bytes, arith, inl, inr,
}
use invar.Kv.{
  Tx, KvError, key_not_found, conflict, db_closed, undefined, Entry, Item, new_entry, with_metadata,
  set_keeping_ttl, DbError, from_kv,
}
use invar.Kv.Writes.{from_kv_ok, set_keeping_ttl_holds}
use invar.Bitmap.{
  type_string, zeros, set_bit_in, get_bit_in, stored_bytes, store_bits, set_bit, read_bytes,
  get_bit,
}
use invar.Bitmap.Bits.{IsByte, get_bit_in-set_bit_in, get_bit_in-zeros, zeros-IsByte}

module _ (t : Tx) where
  open t use {State, get}

  abbrev written : Bytes → Bytes → Entry
  written key bytes = with_metadata (new_entry key bytes) type_string

  abbrev answer : ℕ → State → Result DbError (ℕ × State)
  answer bit s = ok (bit, s)

  answer_inv :
      (r : Result DbError State) (s' : State) (bit old : ℕ)
      → (r >>= answer bit) ≡ ok (old, s')
      → (bit ≡ old) × (r ≡ ok s')
  answer_inv (ok s'') s' bit old h = ground arith
  answer_inv (err e) s' bit old h = cc

  store_bits_inv :
      (now : ℕ) (s s' : State) (key bytes : Bytes) (bit old : ℕ)
      → store_bits t now s key (bytes, bit) ≡ ok (old, s')
      → (bit ≡ old) × (set_keeping_ttl t now s (written key bytes) ≡ ok s')
  unfolding store_bits
  store_bits_inv now s s' key bytes bit old h =
      let (same, stored) =
        answer_inv (from_kv (set_keeping_ttl t now s (written key bytes))) s' bit old h in
      (same, from_kv_ok t (set_keeping_ttl t now s (written key bytes)) s' stored)

  -- The bytes that a command reads, those of a missing key being zeros.
  abbrev StoresBytes : Result KvError Item → Type 0
  StoresBytes r = (item : Item) → r ≡ ok item → All IsByte item.value

  set_bit_from :
      (now : ℕ) (s s' : State) (key : Bytes) (offset v old : ℕ) (r : Result KvError Item)
      → StoresBytes r
      → (stored_bytes t r (offset / 8) >>= λ bytes.
          store_bits t now s key (set_bit_in bytes offset v))
        ≡ ok (old, s')
      → (bytes : Bytes) × All IsByte bytes
        × ((p : ℕ) → read_bytes t r 0 (λ b. get_bit_in b p) ≡ ok (get_bit_in bytes p))
        × (store_bits t now s key (set_bit_in bytes offset v) ≡ ok (old, s'))
  unfolding stored_bytes read_bytes
  set_bit_from now s s' key offset v old (ok item) hb h = (item.value, hb item refl, (λ p. refl), h)
  set_bit_from now s s' key offset v old (err key_not_found) hb h = (
    zeros (offset / 8 + 1),
    zeros-IsByte (offset / 8 + 1),
    (λ p. ap ok (sym (get_bit_in-zeros (offset / 8 + 1) p))),
    h,
  )
  set_bit_from now s s' key offset v old (err conflict) hb h = cc
  set_bit_from now s s' key offset v old (err db_closed) hb h = cc
  set_bit_from now s s' key offset v old (err undefined) hb h = cc

  -- A SETBIT that succeeds answers what GETBIT answered before it, and afterwards GETBIT answers the
  -- value that was set at the offset and what it answered before at every other. The key holds bytes,
  -- or is missing; the value is a bit.
  pub get_bit-set_bit :
      (now : ℕ) (s s' : State) (key : Bytes) (offset v old p : ℕ)
      → StoresBytes (get s key)
      → v < 2
      → set_bit t now s key offset v ≡ ok (old, s')
      → (get_bit t s key offset ≡ ok old)
        × (get_bit t s' key p ≡ (if offset == p then ok v else get_bit t s key p))
  get_bit-set_bit now s s' key offset v old p hb hv h =
      let (bytes, are_bytes, before, stored) =
        set_bit_from now s s' key offset v old (get s key) hb (unfold set_bit in h) in
      let (bit, kept) =
        store_bits_inv now s s' key (set_bit_in bytes offset v).0 (set_bit_in bytes offset v).1 old
          stored in
      let (item, found, value, meta) =
        set_keeping_ttl_holds t now s s' (written key (set_bit_in bytes offset v).0) kept in
      let here : get s' key ≡ ok item = unfold with_metadata new_entry in found in
      let same : item.value ≡ (set_bit_in bytes offset v).0 =
        unfold with_metadata new_entry in value in
      let (reads, previous) = get_bit_in-set_bit_in bytes offset v p are_bytes hv in
      let after : get_bit t s' key p ≡ ok (if offset == p then v else get_bit_in bytes p) =
        unfold get_bit in
        rw here (unfold read_bytes in ap ok (ap (λ b. get_bit_in b p) same ∙ reads)) in
      let now_old : get_bit t s key offset ≡ ok old =
        unfold get_bit in (before offset ∙ ap ok (sym previous ∙ bit)) in
      (
        now_old,
        after ∙ elim (Bool-cases (offset == p)) [
          | inl e ↦ rw e refl
          | inr e ↦ rw e (unfold get_bit in sym (before p))
        ],
      )

  -- A SETBIT that succeeds leaves a plain string under the key, whatever the key held: the type byte
  -- of another type, and the flag of a recorded namespace, are gone.
  pub set_bit_overwrites :
      (now : ℕ) (s s' : State) (key : Bytes) (offset v old : ℕ) (was : Item)
      → get s key ≡ ok was
      → set_bit t now s key offset v ≡ ok (old, s')
      → (item : Item) × (get s' key ≡ ok item)
        × (item.meta ≡ type_string)
        × (item.value ≡ (set_bit_in was.value offset v).0)
  set_bit_overwrites now s s' key offset v old was found h =
      let stored : store_bits t now s key (set_bit_in was.value offset v) ≡ ok (old, s') =
        sym step ∙ h in
      let (bit, kept) =
        store_bits_inv now s s' key (set_bit_in was.value offset v).0
          (set_bit_in was.value offset v).1 old stored in
      let (item, there, value, meta) =
        set_keeping_ttl_holds t now s s' (written key (set_bit_in was.value offset v).0) kept in
      (
        item,
        unfold with_metadata new_entry in there,
        unfold with_metadata new_entry in meta,
        unfold with_metadata new_entry in value,
      )
    where
      step : set_bit t now s key offset v ≡ store_bits t now s key (set_bit_in was.value offset v)
      step = unfold set_bit in rw found (unfold stored_bytes in refl)
