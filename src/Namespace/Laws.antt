-- ===== src/Namespace/Laws.antt =====
-- What is written to a sentinel is read back from it.
use Prim.Native.Nat.{bit_and, bit_or}
use invar.Prelude.{
  ℕ, ◌+◌, ◌-◌, ◌<◌, ◌^◌, ◌≡◌, ◌∙◌, refl, ap, true, false, not, ◌++◌, length, take, drop, ltb, ◌==◌,
  ==_iff, ◌&&◌, if◌then◌else◌, ok, err, Bytes, to_be_bytes, from_be_bytes,
  from_be_bytes-to_be_bytes, append_assoc, length-append, take-length, drop-length, arith,
  Bool-cases, inl, inr,
}
use invar.Prelude.Tables.{passes, passes_at}
use invar.Kv.{Item, redis, corrupt_trailer}
use invar.Namespace.{
  namespace_flag, base_type, is_namespaced, ElementPrefix, split_trailer, payload, prefix_of,
  encode_sentinel,
}

flag_table :
    passes
      (λ t.
        (bit_and (bit_or t namespace_flag) 0x7f == t) && is_namespaced (bit_or t namespace_flag))
      128
    ≡ true
unfolding passes
flag_table = refl

plain_table : passes (λ t. (bit_and t 0x7f == t) && not (is_namespaced t)) 128 ≡ true
unfolding passes
plain_table = refl

pub flagged :
    (t : ℕ)
    → t < 128
    → (base_type (bit_or t namespace_flag) ≡ t) × (is_namespaced (bit_or t namespace_flag) ≡ true)
flagged t h =
    ground (arith, passes_at _ 128 t h flag_table, ==_iff (base_type (bit_or t namespace_flag)) t)

pub plain : (t : ℕ) → t < 128 → (base_type t ≡ t) × (is_namespaced t ≡ false)
plain t h = ground (arith, passes_at _ 128 t h plain_table, ==_iff (base_type t) t)

length-to_be_bytes : (n : ℕ) → length (to_be_bytes n) ≡ 4
length-to_be_bytes n = unfold to_be_bytes in refl

split_trailer_parts :
    (front trailer : Bytes) (n : ℕ)
    → length trailer ≡ 4
    → from_be_bytes trailer ≡ n
    → split_trailer (front ++ trailer) ≡ (
        if ltb (length front) n
        then err (redis corrupt_trailer)
        else ok (
          take (length front - n) (front ++ trailer),
          take n (drop (length front - n) (front ++ trailer)),
        ))
split_trailer_parts front trailer n four e =
    let size : length (front ++ trailer) ≡ length front + 4 =
      omega (arith, length-append {0} front trailer) in
    let at : length front + 4 - 4 ≡ length front = omega arith in
    let long : ltb (length front + 4) 4 ≡ false = ground arith in
    unfold split_trailer in rw (size, at, drop-length, e, long)

-- The payload and the prefix come back from a value with a trailer.
pub split_trailer_round :
    (body prefix : Bytes)
    → length prefix < 2 ^ 32
    → split_trailer (body ++ (prefix ++ to_be_bytes (length prefix))) ≡ ok (body, prefix)
split_trailer_round body prefix h =
    let size : length (body ++ prefix) ≡ length body + length prefix = length-append body prefix in
    let short : ltb (length body + length prefix) (length prefix) ≡ false = ground arith in
    let rest : length body + length prefix - length prefix ≡ length body = omega arith in
    rw (← append_assoc body prefix (to_be_bytes (length prefix))) (
      split_trailer_parts (body ++ prefix) (to_be_bytes (length prefix)) (length prefix)
        (length-to_be_bytes (length prefix)) (from_be_bytes-to_be_bytes (length prefix) h)
      ∙ rw (size, short, rest, append_assoc, take-length, drop-length, take-length))

-- A sentinel that was encoded from a payload, a type byte and a prefix is read back as these.
module _ (body : Bytes) (t : ℕ) (prefix : ElementPrefix) (item : Item) where
  abbrev Stored : Type 0
  Stored =
      (item.value ≡ (encode_sentinel body t prefix).0)
      × (item.meta ≡ (encode_sentinel body t prefix).1)

pub record ReadsBack (item : Item) (legacy body : Bytes) (t : ℕ) (prefix : ElementPrefix)
    : Type 0 where
  pub same_payload : payload item ≡ ok body
  pub same_prefix : prefix_of item legacy ≡ ok prefix
  pub same_type : base_type item.meta ≡ t

encode_explicit :
    (body : Bytes) (t : ℕ) (prefix : ElementPrefix)
    → prefix.explicit ≡ true
    → encode_sentinel body t prefix
      ≡ (body ++ (prefix.bytes ++ to_be_bytes (length prefix.bytes)), bit_or t namespace_flag)
encode_explicit body t prefix e = unfold encode_sentinel in ground (arith, e)

encode_legacy :
    (body : Bytes) (t : ℕ) (prefix : ElementPrefix)
    → prefix.explicit ≡ false
    → encode_sentinel body t prefix ≡ (body, t)
encode_legacy body t prefix e = unfold encode_sentinel in ground (arith, e)

-- A sentinel that was encoded from a payload, a type byte below the flag and a prefix is read back
-- as these, provided that a prefix that is not recorded is the one derived from the name.
pub encode_sentinel_round :
    (item : Item) (legacy body : Bytes) (t : ℕ) (prefix : ElementPrefix)
    → Stored body t prefix item
    → t < 128
    → length prefix.bytes < 2 ^ 32
    → (prefix.explicit ≡ false → prefix.bytes ≡ legacy)
    → ReadsBack item legacy body t prefix
encode_sentinel_round item legacy body t prefix (v, m) small fits name =
    elim (Bool-cases prefix.explicit) [
      | inl e ↦
          let value = v ∙ ap (λ (x : Bytes × ℕ). x.0) (encode_explicit body t prefix e) in
          let meta = m ∙ ap (λ (x : Bytes × ℕ). x.1) (encode_explicit body t prefix e) in
          let flag : is_namespaced item.meta ≡ true =
            ap (λ (x : ℕ). is_namespaced x) meta ∙ (flagged t small).1 in
          let split : split_trailer item.value ≡ ok (body, prefix.bytes) =
            ap split_trailer value ∙ split_trailer_round body prefix.bytes fits in
          record {
            same_payload = unfold payload in ground (arith, flag, split);
            same_prefix = unfold prefix_of in ground (arith, flag, split, e);
            same_type = ap (λ (x : ℕ). base_type x) meta ∙ (flagged t small).0;
          }
      | inr e ↦
          let value = v ∙ ap (λ (x : Bytes × ℕ). x.0) (encode_legacy body t prefix e) in
          let meta = m ∙ ap (λ (x : Bytes × ℕ). x.1) (encode_legacy body t prefix e) in
          let flag : is_namespaced item.meta ≡ false =
            ap (λ (x : ℕ). is_namespaced x) meta ∙ (plain t small).1 in
          record {
            same_payload = unfold payload in ground (arith, flag, value);
            same_prefix = unfold prefix_of in ground (arith, flag, e, name e);
            same_type = ap (λ (x : ℕ). base_type x) meta ∙ (plain t small).0;
          }
    ]
