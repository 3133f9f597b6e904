-- ===== src/Api/Keys/Format.antt =====
-- What a key that `split` accepts looks like.
use cellora.Prelude.{
  ℕ, suc, ◌+◌, ◌≡◌, refl, ap, true, Bool-cases, inl, inr, Bool, Option-cases, ==_iff, Option, some,
  [], ◌∷◌, ◌++◌, Bytes, bytes_eq, bytes_eq_sound, codes, ok, arith, length, take, drop, Ensures,
  Ensures-bind, Ensures-guard, Ensures-ok, ok_or, ok_or-eq-ok, ◌==◌, ◌&&◌,
}
use cellora.Api.Keys.{bad_format, split_once, all_hex, split}

-- The full key is the prefix, an underscore and the secret; the prefix is `cell_` and 8 hex digits,
-- and the secret is 32.
pub record KeyParts (full prefix secret : Bytes) : Type 0 where
  pub whole : full ≡ prefix ++ (95 ∷ secret)
  pub random : (r : Bytes) × (prefix ≡ codes "cell_" ++ r) × (length r ≡ 8) × (all_hex r ≡ true)
  pub secret_length : length secret ≡ 32
  pub secret_hex : all_hex secret ≡ true

split_once-parts : (bs x y : Bytes) → split_once bs ≡ some (x, y) → bs ≡ x ++ (95 ∷ y)
unfolding split_once
split_once-parts [] x y e = absurd cc
split_once-parts (b ∷ bs) x y e = elim (Bool-cases (b == 95)) [
  | inl hit ↦ at_cut hit (rw hit at e)
  | inr miss ↦ elim (Option-cases (split_once bs)) [
    | inl no_cut ↦ absurd (cc (rw (miss, no_cut) at e))
    | inr ((x', y'), later) ↦ past b x' y' (rw (miss, later) at e) (split_once-parts bs x' y' later)
  ]
]
  where
    at_cut :
        b == 95 ≡ true
        → ◌≡◌ {A = Option (Bytes × Bytes)} (some ([], bs)) (some (x, y))
        → b ∷ bs ≡ x ++ (95 ∷ y)
    at_cut hit e = let n : b ≡ 95 = (==_iff b 95).0 hit in cc (n, e)

    past :
        (c : ℕ) (x' y' : Bytes)
        → ◌≡◌ {A = Option (Bytes × Bytes)} (some (c ∷ x', y')) (some (x, y))
        → bs ≡ x' ++ (95 ∷ y')
        → c ∷ bs ≡ x ++ (95 ∷ y)
    past c x' y' e h =
        let ex : c ∷ x' ≡ x = cc in let ey : y' ≡ y = cc in rw⁻¹ (ex, ey) (ap (λ zs. c ∷ zs) h)

pub take_append : (xs ys : Bytes) → take (length xs) (xs ++ ys) ≡ xs
take_append [] ys = refl
take_append (x ∷ xs) ys = ap (λ zs. x ∷ zs) (take_append xs ys)

pub drop_append : (xs ys : Bytes) (y : ℕ) → drop (suc (length xs)) (xs ++ (y ∷ ys)) ≡ ys
drop_append [] ys y = refl
drop_append (x ∷ xs) ys y = drop_append xs ys y

cut_key :
    (full tag r rest secret : Bytes)
    → full ≡ tag ++ (95 ∷ rest)
    → rest ≡ r ++ (95 ∷ secret)
    → tag ≡ codes "cell"
    → length r ≡ 8
    → all_hex r ≡ true
    → length secret ≡ 32
    → all_hex secret ≡ true
    → KeyParts full
        (take (length tag + 1 + length r) full)
        (drop (length tag + 1 + length r + 1) full)
cut_key full tag r rest secret ef er et n rh m sh =
    let shape : full ≡ codes "cell_" ++ (r ++ (95 ∷ secret)) = rw (ef, et, er) in
    let front : take (length tag + 1 + length r) full ≡ codes "cell_" ++ r =
      let at : length tag + 1 + length r ≡ length (codes "cell_" ++ r) = rw et (omega arith) in
      rw (at, shape) (take_append (codes "cell_" ++ r) (95 ∷ secret)) in
    let back : drop (length tag + 1 + length r + 1) full ≡ secret =
      let at : length tag + 1 + length r + 1 ≡ suc (length (codes "cell_" ++ r)) =
        rw et (omega arith) in
      rw (at, shape) (drop_append (codes "cell_" ++ r) secret 95) in
    rw (front, back)
      (record { whole = shape; random = (r, refl, n, rh); secret_length = m; secret_hex = sh })

pub both_true : (a b : Bool) → a && b ≡ true → (a ≡ true) × (b ≡ true)
both_true a b h = ground arith

abbrev Parts : Bytes → Bytes × Bytes → Type 0
Parts full x = KeyParts full x.0 x.1

split-Parts : (full : Bytes) → Ensures (Parts full) (split full)
unfolding split
split-Parts full = Ensures-bind (Parts full) (ok_or (split_once full) bad_format) _ λ a ea.
    Ensures-bind (Parts full) (ok_or (split_once a.1) bad_format) _ λ b eb.
      Ensures-guard (Parts full) (bytes_eq a.0 (codes "cell")) bad_format _ λ tag.
        Ensures-guard (Parts full) (length b.0 == 8 && all_hex b.0) bad_format _ λ random.
          Ensures-guard (Parts full) (length b.1 == 32 && all_hex b.1) bad_format _ λ secret.
            let (n, hex) = both_true (length b.0 == 8) (all_hex b.0) random in
            let (m, hex') = both_true (length b.1 == 32) (all_hex b.1) secret in
            cut_key full a.0 b.0 a.1 b.1
              (split_once-parts full a.0 a.1 (ok_or-eq-ok _ bad_format ea))
              (split_once-parts a.1 b.0 b.1 (ok_or-eq-ok _ bad_format eb))
              (bytes_eq_sound a.0 (codes "cell") tag) ((==_iff (length b.0) 8).0 n) hex
              ((==_iff (length b.1) 32).0 m) hex'

-- A key that `split` accepts is the prefix it returns, an underscore and the secret it returns: the
-- prefix is `cell_` and 8 hex digits, the secret 32.
pub split-KeyParts :
    (full prefix secret : Bytes) → split full ≡ ok (prefix, secret) → KeyParts full prefix secret
split-KeyParts full prefix secret h =
    Ensures-ok (Parts full) (split full) (prefix, secret) (split-Parts full) h
