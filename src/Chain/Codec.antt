-- ===== src/Chain/Codec.antt =====
-- Nodes and sentinels come back from their stored form.
use invar.Prelude.{
  ℕ, ◌+◌, ◌-◌, ◌^◌, ◌<◌, ◌≡◌, ◌∙◌, refl, sym, ap, subst, false, Option, none, some, [], ◌++◌,
  append-nil, length, length-append, take, drop, take-length, drop-length, drop-drop, ltb, Result,
  ok, Bytes, to_be_bytes, from_be_bytes, from_be_bytes-to_be_bytes, arith,
}
use invar.Kv.{DbError}
use invar.Chain.{ListNode}
use invar.Chain.Store.{
  is_zero_key, to_opt_key, key_bytes, decode_node, encode_node, Sentinel, sentinel_fields,
  sentinel_bytes,
}

-- A key has 16 bytes, not all of them zero.
abbrev pub IsKey : Bytes → Type 0
IsKey k = (length k ≡ 16) × (is_zero_key k ≡ false)

abbrev pub IsLink : Option Bytes → Type 0
IsLink none = Unit {0}
IsLink (some k) = IsKey k

pub length-key_bytes : (o : Option Bytes) → IsLink o → length (key_bytes o) ≡ 16
unfolding key_bytes
length-key_bytes none h = refl
length-key_bytes (some k) h = h.0

pub to_opt_key-key_bytes : (o : Option Bytes) → IsLink o → to_opt_key (key_bytes o) ≡ o
unfolding to_opt_key key_bytes
to_opt_key-key_bytes none h = refl
to_opt_key-key_bytes (some k) h = rw h.1 refl

take_front : (n : ℕ) (xs ys : Bytes) → length xs ≡ n → take n (xs ++ ys) ≡ xs
take_front n xs ys h = subst (λ m. take m (xs ++ ys) ≡ xs) h (take-length xs ys)

drop_front : (n : ℕ) (xs ys : Bytes) → length xs ≡ n → drop n (xs ++ ys) ≡ ys
drop_front n xs ys h = subst (λ m. drop m (xs ++ ys) ≡ ys) h (drop-length xs ys)

pub decode_node-encode_node :
    (n : ListNode) → IsLink n.prev → IsLink n.next → decode_node n.key (encode_node n) ≡ ok n
unfolding decode_node
decode_node-encode_node n hp hn =
    let p : Bytes = key_bytes n.prev in
    let q : Bytes = key_bytes n.next in
    let lp : length p ≡ 16 = length-key_bytes n.prev hp in
    let lq : length q ≡ 16 = length-key_bytes n.next hn in
    let whole : length (n.value ++ (p ++ q)) ≡ length n.value + 32 =
      omega (arith, lp, lq, length-append n.value (p ++ q), length-append p q) in
    let enough : ltb (length (n.value ++ (p ++ q))) 32 ≡ false = ground (arith, whole) in
    let split : length n.value ≡ length (n.value ++ (p ++ q)) - 32 = omega (arith, whole) in
    let value = take_front (length (n.value ++ (p ++ q)) - 32) n.value (p ++ q) split in
    let links = drop_front (length (n.value ++ (p ++ q)) - 32) n.value (p ++ q) split in
    let bytes : Bytes = n.value ++ (p ++ q) in
    let laid_out : encode_node n ≡ bytes = unfold encode_node in refl in
    let made : Bytes → Option Bytes → Option Bytes → Result DbError ListNode =
      λ v a b. ok (record { key = n.key; value = v; prev = a; next = b }) in
    let first : to_opt_key (take 16 (p ++ q)) ≡ n.prev =
      ap to_opt_key (take_front 16 p q lp) ∙ to_opt_key-key_bytes n.prev hp in
    let second : to_opt_key (drop 16 (p ++ q)) ≡ n.next =
      ap to_opt_key (drop_front 16 p q lp) ∙ to_opt_key-key_bytes n.next hn in
    let parsed : decode_node n.key bytes
        ≡ made (take (length bytes - 32) bytes)
            (to_opt_key (take 16 (drop (length bytes - 32) bytes)))
            (to_opt_key (drop 16 (drop (length bytes - 32) bytes))) =
      unfold decode_node in rw enough refl in
    ap (decode_node n.key) laid_out
    ∙ parsed
    ∙ ap
        (λ (v : Bytes).
          made v (to_opt_key (take 16 (drop (length bytes - 32) bytes)))
            (to_opt_key (drop 16 (drop (length bytes - 32) bytes))))
        value
    ∙ ap (λ (l : Bytes). made n.value (to_opt_key (take 16 l)) (to_opt_key (drop 16 l))) links
    ∙ ap (λ (o : Option Bytes). made n.value o (to_opt_key (drop 16 (p ++ q)))) first
    ∙ ap (made n.value n.prev) second

length-to_be_bytes : (n : ℕ) → length (to_be_bytes n) ≡ 4
unfolding to_be_bytes
length-to_be_bytes n = refl

pub sentinel_fields-sentinel_bytes :
    (head tail : Option Bytes) (size : ℕ)
    → IsLink head
    → IsLink tail
    → size < 2 ^ 32
    → sentinel_fields (sentinel_bytes head tail size)
      ≡ ok (record { size = size; head = key_bytes head; tail = key_bytes tail })
sentinel_fields-sentinel_bytes head tail size hh ht small =
    let h : Bytes = key_bytes head in
    let l : Bytes = key_bytes tail in
    let lh : length h ≡ 16 = length-key_bytes head hh in
    let ll : length l ≡ 16 = length-key_bytes tail ht in
    let be : Bytes = to_be_bytes size in
    let lb : length be ≡ 4 = length-to_be_bytes size in
    let bytes : Bytes = be ++ (h ++ l) in
    let laid_out : sentinel_bytes head tail size ≡ bytes = unfold sentinel_bytes in refl in
    let whole : length bytes ≡ 36 =
      omega (arith, lh, ll, lb, length-append be (h ++ l), length-append h l) in
    let enough : ltb (length bytes) 36 ≡ false = ground (arith, whole) in
    let made : ℕ → Bytes → Bytes → Result DbError Sentinel =
      λ n a b. ok (record { size = n; head = a; tail = b }) in
    let parsed : sentinel_fields bytes
        ≡ made (from_be_bytes (take 4 bytes)) (take 16 (drop 4 bytes)) (take 16 (drop 20 bytes)) =
      unfold sentinel_fields in rw enough refl in
    let number : from_be_bytes (take 4 bytes) ≡ size =
      ap from_be_bytes (take_front 4 be (h ++ l) lb) ∙ from_be_bytes-to_be_bytes size small in
    let behind : drop 4 bytes ≡ h ++ l = drop_front 4 be (h ++ l) lb in
    let further : drop 20 bytes ≡ l =
      sym (drop-drop 4 16 bytes) ∙ ap (drop 16) behind ∙ drop_front 16 h l lh in
    let last : take 16 l ≡ l = ap (take 16) (sym (append-nil l)) ∙ take_front 16 l [] ll in
    ap sentinel_fields laid_out
    ∙ parsed
    ∙ ap (λ (n : ℕ). made n (take 16 (drop 4 bytes)) (take 16 (drop 20 bytes))) number
    ∙ ap (λ (a : Bytes). made size a (take 16 (drop 20 bytes)))
        (ap (take 16) behind ∙ take_front 16 h l lh)
    ∙ ap (λ (b : Bytes). made size h b) (ap (take 16) further ∙ last)
