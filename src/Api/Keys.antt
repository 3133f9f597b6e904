-- ===== src/Api/Keys.antt =====
-- crates/api/src/keys.rs. Argon2 is the parameters `HashPassword` and `VerifyPassword`, whose error
-- messages are not kept.
pub mod Format
pub mod Issued
use cellora.Prelude.{
  ℕ, ◌+◌, Bool, true, false, not, ◌&&◌, ◌||◌, Option, none, some, List, [], ◌∷◌, ◌++◌, Bytes,
  bytes_eq, codes, Result, ok, err, ok_or, guard, ◌>>=◌, ◌>>◌, leb, ◌==◌, if◌then◌else◌, length,
  take, drop,
}

pub data KeyError : Type 0 where
  hashing : Bytes → KeyError
  bad_format mismatch : KeyError

-- one cut of `splitn`: what stands before the first underscore, and after it
unfoldable pub split_once : Bytes → Option (Bytes × Bytes)
split_once [] = none
split_once (b ∷ bs) =
    let rest = split_once bs in
    if b == 95 then some ([], bs) else elim rest [ none ↦ none | some (x, y) ↦ some (b ∷ x, y) ]

unfoldable pub is_ascii_hexdigit : ℕ → Bool
is_ascii_hexdigit b = (leb 48 b && leb b 57) || ((leb 65 b && leb b 70) || (leb 97 b && leb b 102))

unfoldable pub all_hex : Bytes → Bool
all_hex [] = true
all_hex (b ∷ bs) = is_ascii_hexdigit b && all_hex bs

unfoldable pub split : Bytes → Result KeyError (Bytes × Bytes)
split full = do
  (tag, rest) ← ok_or (split_once full) bad_format
  (prefix_random, secret) ← ok_or (split_once rest) bad_format
  guard (bytes_eq tag (codes "cell")) bad_format
  guard (length prefix_random == 8 && all_hex prefix_random) bad_format
  guard (length secret == 32 && all_hex secret) bad_format
  let prefix_end = length tag + 1 + length prefix_random
  ok (take prefix_end full, drop (prefix_end + 1) full)

-- `PasswordHash::new` and `verify_password` on a secret and a PHC string
abbrev pub VerifyPassword : Type 0
VerifyPassword = Bytes → Bytes → Bool

unfoldable pub verify : VerifyPassword → Bytes → Bytes → Result KeyError (Unit {0})
verify verify_password secret phc = guard (verify_password secret phc) mismatch

pub record IssuedKey : Type 0 where
  pub prefix : Bytes
  pub secret : Bytes
  pub secret_hash : Bytes
  pub full : Bytes

-- `hash_password` on a secret and a salt, as the text of the PHC string
abbrev pub HashPassword : Type 0
HashPassword = Bytes → Bytes → Option Bytes

-- The 4 and 16 bytes and the salt are the operating system's random numbers.
unfoldable pub generate :
    HashPassword → (Bytes → Bytes) → Bytes → Bytes → Bytes → Result KeyError IssuedKey
generate hash_password hex_encode prefix_bytes secret_bytes salt =
    let secret = hex_encode secret_bytes in
    let prefix = codes "cell" ++ (95 ∷ hex_encode prefix_bytes) in
    ok_or (hash_password secret salt) (hashing (codes "argon2")) >>= λ phc.
    ok (record {
      prefix = prefix;
      secret = secret;
      secret_hash = phc;
      full = prefix ++ (95 ∷ secret);
    })
