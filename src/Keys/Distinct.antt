-- ===== src/Keys/Distinct.antt =====
-- Storage keys of different databases or different names are different.
use invar.Prelude.{
  ℕ, ◌≤◌, ◌≡◌, ◌≢◌, ◌∙◌, refl, sym, ap, List, [], ◌∷◌, ◌++◌, append_assoc, All, Result, ok, Bytes,
  arith,
}
use invar.Prelude.Int.{ℤ, pos}
use invar.Resp.Value.{RespError}
use invar.Resp.Number.{i64_max, decimal, show_int, parse_int}
use invar.Resp.Number.Laws.{IsDigit, decimal-IsDigit, parse_int-decimal}
use invar.Keys.{prefix, public_key, private_key}

cons_same : (x y : ℕ) (xs ys : List ℕ) → x ∷ xs ≡ y ∷ ys → (x ≡ y) × (xs ≡ ys)
cons_same x y xs ys h = (cc, cc)

-- Digits in front of a colon are read off a key.
before_colon :
    (d d' : List ℕ) (k k' : Bytes)
    → All IsDigit d
    → All IsDigit d'
    → d ++ b':' ∷ k ≡ d' ++ b':' ∷ k'
    → (d ≡ d') × (k ≡ k')
before_colon [] [] k k' hd hd' h = (refl, (cons_same (b':') (b':') k k' h).1)
before_colon [] (x ∷ d') k k' hd hd' h =
    let e = (cons_same (b':') x k (d' ++ b':' ∷ k') h).0 in absurd (omega (arith, e, hd'.0.1))
before_colon (x ∷ d) [] k k' hd hd' h =
    let e = (cons_same x (b':') (d ++ b':' ∷ k) k' h).0 in absurd (omega (arith, e, hd.0.1))
before_colon (x ∷ d) (y ∷ d') k k' hd hd' h =
    let (e, rest) = cons_same x y (d ++ b':' ∷ k) (d' ++ b':' ∷ k') h in
    let (same, tail) = before_colon d d' k k' hd.1 hd'.1 rest in (cc, tail)

public_key_text : (db : ℕ) (key : Bytes) → public_key (pos db) key ≡ decimal db ++ b':' ∷ key
public_key_text db key = unfold public_key show_int in append_assoc (decimal db) (b':' ∷ []) key

same_database : (a b : ℕ) → ◌≡◌ {A = Result RespError ℤ} (ok (pos a)) (ok (pos b)) → a ≡ b
same_database a b h = cc

-- Two public keys are equal only for the same database and the same key: no key of one database is
-- read or written as a key of another. The database numbers are not negative.
pub public_key_distinct :
    (db db' : ℕ) (key key' : Bytes)
    → db ≤ i64_max
    → db' ≤ i64_max
    → public_key (pos db) key ≡ public_key (pos db') key'
    → (db ≡ db') × (key ≡ key')
public_key_distinct db db' key key' small small' h =
    let (digits, same) =
      before_colon (decimal db) (decimal db') key key' (decimal-IsDigit db) (decimal-IsDigit db')
        (sym (public_key_text db key) ∙ h ∙ public_key_text db' key') in
    (
      same_database db db'
          (sym (parse_int-decimal db small) ∙ ap parse_int digits ∙ parse_int-decimal db' small'),
      same,
    )

starts_with_digit : (d : List ℕ) (k k' : Bytes) → All IsDigit d → b'-' ∷ k' ≢ d ++ b':' ∷ k
starts_with_digit [] k k' h e =
    let x = (cons_same (b'-') (b':') k' k e).0 in absurd (omega (arith, x))
starts_with_digit (x ∷ d) k k' h e =
    let y = (cons_same (b'-') x k' (d ++ b':' ∷ k) e).0 in absurd (omega (arith, y, h.0.0))

-- A private key is never a public one. The database numbers are not negative.
pub private_key-public_key :
    (db db' : ℕ) (key key' : Bytes) → private_key (pos db) key ≢ public_key (pos db') key'
private_key-public_key db db' key key' e =
    starts_with_digit (decimal db') key' (prefix (pos db) ++ key) (decimal-IsDigit db')
      (unfold private_key in (e ∙ public_key_text db' key'))
