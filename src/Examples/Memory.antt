-- ===== src/Examples/Memory.antt =====
-- A store in memory that is a transaction in the sense of Kv.antt. Its clock stands at zero.
use invar.Prelude.{
  ◌≡◌, ◌∙◌, refl, sym, ap, subst, false, none, some, Result, ok, err, Bytes, bytes_eq,
  bytes_eq_refl, ◌==◌, if◌then◌else◌,
}
use invar.Kv.{Tx, Holds, KvError, key_not_found, Entry, Item}

abbrev pub Memory : Type 0
Memory = Bytes → Result KvError Item

abbrev pub item_of : Entry → Item
item_of e = record {
  key = e.key;
  value = e.value;
  meta = e.meta;
  expire_ts = if e.ttl == 0 then none else some e.ttl;
}

abbrev pub write : Memory → Bytes → Result KvError Item → Memory
write s key r k = if bytes_eq key k then r else s k

pub write_self : (s : Memory) (key : Bytes) (r : Result KvError Item) → write s key r key ≡ r
write_self s key r = rw (bytes_eq_refl key) refl

pub write_ne :
    (s : Memory) (key k : Bytes) (r : Result KvError Item)
    → bytes_eq key k ≡ false
    → write s key r k ≡ s k
write_ne s key k r h = rw h refl

pub same_state : (a b : Memory) → ◌≡◌ {A = Result KvError Memory} (ok a) (ok b) → a ≡ b
same_state a b h = cc

pub Holds-item_of : (e : Entry) → Holds e (ok (item_of e))
Holds-item_of e = record {
  item = item_of e;
  found = refl;
  same_value = refl;
  same_meta = refl;
  unlimited = λ h. rw h refl;
}

abbrev pub memory : Tx
memory = record {
  State = Memory;
  get = λ s k. s k;
  set = λ s e. ok (write s e.key (ok (item_of e)));
  delete = λ s k. ok (write s k (err key_not_found));
  get-set_self = λ s s' e h.
      subst (λ (m : Memory). Holds e (m e.key)) (same_state (write s e.key (ok (item_of e))) s' h)
        (subst (Holds e) (sym (write_self s e.key (ok (item_of e)))) (Holds-item_of e));
  get-set_ne = λ s s' e k h ne.
      ap (λ (m : Memory). m k) (sym (same_state (write s e.key (ok (item_of e))) s' h))
      ∙ write_ne s e.key k (ok (item_of e)) ne;
  get-delete_self = λ s s' k h.
      ap (λ (m : Memory). m k) (sym (same_state (write s k (err key_not_found)) s' h))
      ∙ write_self s k (err key_not_found);
  get-delete_ne = λ s s' k j h ne.
      ap (λ (m : Memory). m j) (sym (same_state (write s k (err key_not_found)) s' h))
      ∙ write_ne s k j (err key_not_found) ne;
}

abbrev pub empty : Memory
empty key = err key_not_found
