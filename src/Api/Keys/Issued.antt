-- ===== src/Api/Keys/Issued.antt =====
-- A key that `generate` issues has the format that `split` accepts.
use cellora.Prelude.{
  suc, ◌*◌, ◌≡◌, refl, true, Bool-cases, inl, inr, some, [], ◌∷◌, ◌++◌, Bytes, bytes_eq,
  Option-cases, codes, ok, arith, length, take, drop, ◌==◌,
}
use mathlib.Core.Path.{subst}
use cellora.Api.Keys.{
  HashPassword, VerifyPassword, IssuedKey, split_once, is_ascii_hexdigit, all_hex, split, generate,
}
use cellora.Api.Keys.Format.{take_append, drop_append}

-- `hex::encode`: two hexadecimal digits for each byte.
pub record HexEncodes (hex_encode : Bytes → Bytes) : Type 0 where
  pub doubles : (bytes : Bytes) → length (hex_encode bytes) ≡ 2 * length bytes
  pub digits : (bytes : Bytes) → all_hex (hex_encode bytes) ≡ true

-- Argon2 verifies a secret against the text that it made of it.
abbrev pub Verifies : HashPassword → VerifyPassword → Type 0
Verifies hash_password verify_password =
    (secret salt phc : Bytes)
    → hash_password secret salt ≡ some phc
    → verify_password secret phc ≡ true

split_once-hex : (xs ys : Bytes) → all_hex xs ≡ true → split_once (xs ++ (95 ∷ ys)) ≡ some (xs, ys)
unfolding split_once all_hex is_ascii_hexdigit
split_once-hex [] ys h = refl
split_once-hex (b ∷ bs) ys h = elim (Bool-cases (b == 95)) [
  | inl e ↦ absurd (ground arith)
  | inr e ↦ rw (e, split_once-hex bs ys (ground arith))
]

-- What `generate` puts together.
pub record IsIssued (hash_password : HashPassword) (hex_encode : Bytes → Bytes)
    (prefix_bytes secret_bytes salt : Bytes) (k : IssuedKey) : Type 0 where
  pub prefix : k.prefix ≡ codes "cell_" ++ hex_encode prefix_bytes
  pub secret : k.secret ≡ hex_encode secret_bytes
  pub hash : hash_password k.secret salt ≡ some k.secret_hash
  pub full : k.full ≡ k.prefix ++ (95 ∷ k.secret)

pub generate-IsIssued :
    (hash_password : HashPassword) (hex_encode : Bytes → Bytes)
    (prefix_bytes secret_bytes salt : Bytes) (k : IssuedKey)
    → generate hash_password hex_encode prefix_bytes secret_bytes salt ≡ ok k
    → IsIssued hash_password hex_encode prefix_bytes secret_bytes salt k
unfolding generate
generate-IsIssued hash_password hex_encode prefix_bytes secret_bytes salt k h =
    elim (Option-cases (hash_password (hex_encode secret_bytes) salt)) [
      | inl e ↦ absurd (cc (rw e at h))
      | inr (phc, e) ↦
          let made : IssuedKey = record {
            prefix = codes "cell_" ++ hex_encode prefix_bytes;
            secret = hex_encode secret_bytes;
            secret_hash = phc;
            full = (codes "cell_" ++ hex_encode prefix_bytes) ++ (95 ∷ hex_encode secret_bytes);
          } in
          let same : made ≡ k = cc (rw e at h) in
          rw⁻¹ same (record { prefix = refl; secret = refl; hash = e; full = refl })
    ]

-- The parts of a key in its format come back out of it.
pub split-parts :
    (random secret : Bytes)
    → length random ≡ 8
    → all_hex random ≡ true
    → length secret ≡ 32
    → all_hex secret ≡ true
    → split ((codes "cell_" ++ random) ++ (95 ∷ secret)) ≡ ok (codes "cell_" ++ random, secret)
unfolding split split_once bytes_eq
split-parts random secret n rh m sh =
    let front : take 8 (random ++ (95 ∷ secret)) ≡ random =
      subst (λ l. take l (random ++ (95 ∷ secret)) ≡ random) n (take_append random (95 ∷ secret)) in
    let back : drop 9 (random ++ (95 ∷ secret)) ≡ secret =
      subst (λ l. drop (suc l) (random ++ (95 ∷ secret)) ≡ secret) n
        (drop_append random secret 95) in
    rw (split_once-hex random secret rh, rh, sh, n, m, front, back)

-- What `generate` issues, `split` takes apart.
pub split-issued :
    (hash_password : HashPassword) (hex_encode : Bytes → Bytes)
    (prefix_bytes secret_bytes salt : Bytes) (k : IssuedKey)
    → HexEncodes hex_encode
    → length prefix_bytes ≡ 4
    → length secret_bytes ≡ 16
    → IsIssued hash_password hex_encode prefix_bytes secret_bytes salt k
    → split k.full ≡ ok (k.prefix, k.secret)
split-issued hash_password hex_encode prefix_bytes secret_bytes salt k hex four sixteen i =
    let whole : k.full
        ≡ (codes "cell_" ++ hex_encode prefix_bytes) ++ (95 ∷ hex_encode secret_bytes) =
      cc (i.full, i.prefix, i.secret) in
    let parts =
      split-parts (hex_encode prefix_bytes) (hex_encode secret_bytes)
        (omega (arith, hex.doubles prefix_bytes)) (hex.digits prefix_bytes)
        (omega (arith, hex.doubles secret_bytes)) (hex.digits secret_bytes) in
    cc (whole, parts, i.prefix, i.secret)
