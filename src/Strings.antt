-- ===== src/Strings.antt =====
-- src/redis/strings.rs: the database halves of the string commands in a transaction, but those of GETEX
-- and INCRBYFLOAT. `parse::<i64>` of std takes an optional sign and decimal digits; a sum of 64 bits
-- wraps around.
pub mod Ranges
pub mod Sums
pub mod Pairs
use invar.Prelude.{
  ℕ, zero, suc, ◌+◌, ◌-◌, ◌*◌, ◌/◌, ◌%◌, ◌^◌, ◌<◌, ◌≤◌, Bool, true, false, not, Option, none, some,
  List, [], ◌∷◌, ◌++◌, length, take, drop, ltb, leb, ◌==◌, ◌&&◌, ◌||◌, if◌then◌else◌, Result, ok,
  err, ◌>>=◌, Bytes,
}
use invar.Prelude.Int.{ℤ, pos, negsuc}
use mathlib.Core.Option
use invar.Kv.{
  Tx, KvError, key_not_found, Entry, Item, new_entry, with_metadata, with_ttl, keep_ttl_of,
  item_ttl, DbError, kv, wrong_type, redis, not_an_integer, from_kv, set_keeping_ttl,
}
use invar.Bitmap.{type_string, zeros, bit_range}
use invar.Resp.Number.{is_digit, show_int}

-- `str::parse::<i64>`
unfoldable pub parse_nat : ℕ → Bytes → Option ℕ
parse_nat n [] = some n
parse_nat n (b ∷ bs) =
    let rest = parse_nat (n * 10 + (b - b'0')) bs in if is_digit b then rest else none

unfoldable pub parse_digits_of : Bytes → Option ℕ
unfolding parse_nat
parse_digits_of [] = none
parse_digits_of (b ∷ bs) = parse_nat 0 (b ∷ bs)

unfoldable pub positive : Option ℕ → Option ℤ
positive none = none
positive (some n) = if ltb n (2 ^ 63) then some (pos n) else none

unfoldable pub negative : Option ℕ → Option ℤ
negative none = none
negative (some zero) = some (pos 0)
negative (some (suc n)) = if ltb n (2 ^ 63) then some (negsuc n) else none

unfoldable pub parse_i64 : Bytes → Option ℤ
unfolding parse_digits_of positive negative
parse_i64 [] = none
parse_i64 (b ∷ bs) =
    if b == b'-'
    then negative (parse_digits_of bs)
    else if b == b'+'
    then positive (parse_digits_of bs)
    else positive (parse_digits_of (b ∷ bs))

-- `i64::wrapping_add`, through the 64 bits of the two's complement.
unfoldable pub to_word : ℤ → ℕ
to_word (pos n) = n
to_word (negsuc n) = 2 ^ 64 - suc n

unfoldable pub of_word : ℕ → ℤ
of_word u = if ltb u (2 ^ 63) then pos u else negsuc (2 ^ 64 - suc u)

unfoldable pub wrapping_add : ℤ → ℤ → ℤ
unfolding to_word of_word
wrapping_add a b = of_word ((to_word a + to_word b) % 2 ^ 64)

pub data SetMode : Type 0 where
  any nx xx : SetMode

pub record SetResult : Type 0 where
  pub modified : Bool
  pub old : Option Bytes

-- What a SET can fail with: `unwrap` on the time to live of a key that is not there is a panic.
pub data Failure : Type 0 where
  db : DbError → Failure
  unwrap_on_none : Failure

abbrev pub string_entry : Bytes → Bytes → Entry
string_entry key value = record { key = key; value = value; meta = type_string; ttl = 0 }

abbrev pub is_string : Item → Bool
is_string item = item.meta == type_string

unfoldable pub allowed : SetMode → Option Item → Bool
allowed any existing = true
allowed nx none = true
allowed nx (some item) = false
allowed xx none = false
allowed xx (some item) = true

unfoldable pub effective_ttl : ℕ → Bool → Option ℕ → Option Item → Result Failure (Option ℕ)
unfolding item_ttl
effective_ttl now true ttl none = err unwrap_on_none
effective_ttl now true ttl (some item) = ok (item_ttl now item)
effective_ttl now false ttl existing = ok ttl

unfoldable pub with_ttl_of : Option ℕ → Entry → Entry
unfolding with_ttl
with_ttl_of none e = e
with_ttl_of (some ttl) e = with_ttl e ttl

abbrev pub or_failure : {A : Type 0} → Result DbError A → Result Failure A
or_failure (ok a) = ok a
or_failure (err e) = err (db e)

-- `new_val[offset..offset + value.len()].copy_from_slice(&value)`
unfoldable pub copy_into : Bytes → ℕ → Bytes → Bytes
copy_into buffer offset value = take offset buffer ++ (value ++ drop (offset + length value) buffer)

abbrev pub max_of : ℕ → ℕ → ℕ
max_of a b = if leb a b then b else a

unfoldable pub set_range_in : Option Bytes → ℕ → Bytes → Bytes
unfolding copy_into
set_range_in none offset value = copy_into (zeros (offset + length value)) offset value
set_range_in (some old) offset value =
    copy_into (copy_into (zeros (max_of (offset + length value) (length old))) 0 old) offset value

-- The bounds are normalised as those of BITCOUNT.
unfoldable pub substr_in : Bytes → ℤ → ℤ → Bytes
unfolding bit_range
substr_in val start end = elim (bit_range start end (length val)) [
  | none ↦ []
  | some (first, last) ↦ take (last + 1 - first) (drop first val)
]

abbrev pub or_empty_bytes : Option Bytes → Bytes
or_empty_bytes none = []
or_empty_bytes (some val) = val

module _ (t : Tx) where
  open t use {State, get, set, delete}

  -- By what stands under the key.
  unfoldable pub string_in : Result KvError Item → Result DbError (Option Bytes)
  string_in (ok item) = if is_string item then ok (some item.value) else err wrong_type
  string_in (err key_not_found) = ok none
  string_in (err e) = err (kv e)

  unfoldable pub read_string : State → Bytes → Result DbError (Option Bytes)
  unfolding string_in
  read_string s key = string_in (get s key)

  unfoldable pub existing_item : Bool → Result KvError Item → Result DbError (Option Item)
  existing_item asked (ok item) =
      if asked && not (is_string item) then err wrong_type else ok (some item)
  existing_item asked (err key_not_found) = ok none
  existing_item asked (err e) = err (kv e)

  unfoldable pub set_over_existing :
      ℕ
      → State
      → Bytes
      → Bytes
      → Option ℕ
      → SetMode
      → Bool
      → Option Item
      → Result Failure (SetResult × State)
  unfolding allowed effective_ttl with_ttl_of
  set_over_existing now s key value ttl mode keepttl existing =
      let old = Option.map (λ (i : Item). i.value) existing in
      if allowed mode existing
      then (effective_ttl now keepttl ttl existing >>= λ left.
          or_failure (from_kv (set s (with_ttl_of left (string_entry key value)))) >>= λ s'.
          ok (record { modified = true; old = old }, s'))
      else ok (record { modified = false; old = old }, s)

  unfoldable pub set_string :
      ℕ
      → State
      → Bytes
      → Bytes
      → Option ℕ
      → SetMode
      → Bool
      → Bool
      → Result Failure (SetResult × State)
  unfolding existing_item set_over_existing
  set_string now s key value ttl mode asked keepttl =
      or_failure (existing_item asked (get s key))
      >>= set_over_existing now s key value ttl mode keepttl

  -- The type of what is replaced is not checked.
  unfoldable pub getset_over :
      State → Bytes → Bytes → Result KvError Item → Result DbError (Option Bytes × State)
  getset_over s key value (ok item) =
      from_kv (set s (string_entry key value)) >>= λ s'. ok (some item.value, s')
  getset_over s key value (err key_not_found) =
      from_kv (set s (string_entry key value)) >>= λ s'. ok (none, s')
  getset_over s key value (err e) = err (kv e)

  unfoldable pub getset : State → Bytes → Bytes → Result DbError (Option Bytes × State)
  unfolding getset_over
  getset s key value = getset_over s key value (get s key)

  -- A deletion that fails answers nothing.
  unfoldable pub deleted : State → Bytes → Result KvError State → Option Bytes × State
  deleted s val (ok s') = (some val, s')
  deleted s val (err e) = (none, s)

  unfoldable pub getdel : State → Bytes → Result DbError (Option Bytes × State)
  unfolding read_string deleted
  getdel s key = read_string s key >>= λ found. elim found [
    | none ↦ ok (none, s)
    | some val ↦ ok (deleted s val (delete s key))
  ]

  unfoldable pub strlen : State → Bytes → Result DbError ℕ
  unfolding read_string
  strlen s key = read_string s key >>= λ found. ok (length (or_empty_bytes found))

  unfoldable pub substr : State → Bytes → ℤ → ℤ → Result DbError Bytes
  unfolding read_string substr_in
  substr s key start end =
      read_string s key >>= λ found. ok (substr_in (or_empty_bytes found) start end)

  unfoldable pub setnx_over :
      State → Bytes → Bytes → Result KvError Item → Result DbError (ℕ × State)
  setnx_over s key value (ok item) = ok (0, s)
  setnx_over s key value (err key_not_found) =
      from_kv (set s (string_entry key value)) >>= λ s'. ok (1, s')
  setnx_over s key value (err e) = err (kv e)

  unfoldable pub setnx : State → Bytes → Bytes → Result DbError (ℕ × State)
  unfolding setnx_over
  setnx s key value = setnx_over s key value (get s key)

  -- The new length is the answer.
  unfoldable pub store_string : ℕ → State → Bytes → Bytes → Result DbError (ℕ × State)
  store_string now s key value =
      from_kv (set_keeping_ttl t now s (string_entry key value)) >>= λ s'. ok (length value, s')

  unfoldable pub append_string : ℕ → State → Bytes → Bytes → Result DbError (ℕ × State)
  unfolding read_string store_string
  append_string now s key value =
      read_string s key >>= λ found. store_string now s key (or_empty_bytes found ++ value)

  unfoldable pub set_range : ℕ → State → Bytes → ℕ → Bytes → Result DbError (ℕ × State)
  unfolding read_string set_range_in store_string
  set_range now s key offset value =
      read_string s key >>= λ found. store_string now s key (set_range_in found offset value)

  unfoldable pub set_pairs : State → List (Bytes × Bytes) → Result DbError State
  set_pairs s [] = ok s
  set_pairs s ((key, value) ∷ pairs) =
      from_kv (set s (string_entry key value)) >>= λ s'. set_pairs s' pairs

  -- Whether none of the keys is there.
  unfoldable pub is_absent : Result KvError Item → Result DbError Bool
  is_absent (ok item) = ok false
  is_absent (err key_not_found) = ok true
  is_absent (err e) = err (kv e)

  unfoldable pub all_absent : State → List (Bytes × Bytes) → Result DbError Bool
  unfolding is_absent
  all_absent s [] = ok true
  all_absent s ((key, value) ∷ pairs) =
      let rest = all_absent s pairs in
      is_absent (get s key) >>= λ absent. if absent then rest else ok false

  unfoldable pub msetnx : State → List (Bytes × Bytes) → Result DbError (ℕ × State)
  unfolding all_absent set_pairs
  msetnx s pairs = all_absent s pairs >>= λ absent.
      if absent then (set_pairs s pairs >>= λ s'. ok (1, s')) else ok (0, s)

  -- The metadata and the time to live of the number stay.
  unfoldable pub increment_over :
      ℕ → State → Bytes → ℤ → Result KvError Item → Result DbError (ℤ × State)
  unfolding parse_i64 wrapping_add keep_ttl_of
  increment_over now s key amount (err key_not_found) =
      from_kv (set s (string_entry key (show_int amount))) >>= λ s'. ok (amount, s')
  increment_over now s key amount (err e) = err (kv e)
  increment_over now s key amount (ok item) = elim (parse_i64 item.value) [
    | none ↦ err (redis not_an_integer)
    | some current ↦
        let new_value = wrapping_add current amount in
        let entry = record (string_entry key (show_int new_value)) { meta = item.meta } in
        from_kv (set s (keep_ttl_of now entry item)) >>= λ s'. ok (new_value, s')
  ]

  unfoldable pub increment : ℕ → State → Bytes → ℤ → Result DbError (ℤ × State)
  unfolding increment_over
  increment now s key amount = increment_over now s key amount (get s key)
