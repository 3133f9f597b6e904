-- ===== src/Prelude/Text/Numbers.antt =====
-- A printed number parses to itself, where it fits.
use Prim.Native.Nat.{ℕ, zero, suc, ◌+◌, ◌*◌, ◌/◌, ◌%◌, ◌-◌, ◌<◌, ◌≤◌}
use mathlib.Core.Path.{◌≡◌, ◌∙◌, refl}
use mathlib.Core.Bool.{true, false}
use mathlib.Core.Option.{none, some}
use mathlib.Core.List.{[], ◌∷◌}
use mathlib.Core.Logic.{inl, inr}
use native.Mathlib.Omega.{arith}
use cellora.Prelude.Tests.{ltb, leb, ◌==◌, if◌then◌else◌, le→leb, leb→le, Bool-cases}
use cellora.Prelude.Strings.{Bytes}
use cellora.Prelude.Int.{u64_max}
use cellora.Prelude.Text.{digits, decimal, is_digit, parse_digits, parse_u64}

is_digit-digit : (d : ℕ) → d < 10 → is_digit (48 + d) ≡ true
unfolding is_digit
is_digit-digit d h = ground arith

-- one digit
parse_digits-digit :
    (acc d n : ℕ) (bs : Bytes)
    → d < 10
    → acc * 10 + d ≡ n
    → parse_digits acc ((48 + d) ∷ bs) ≡ (if leb n u64_max then parse_digits n bs else none)
unfolding parse_digits
parse_digits-digit acc d n bs h e =
    let next : acc * 10 + (48 + d - 48) ≡ n = omega arith in rw (is_digit-digit d h, next)

pub parse_digits-digits :
    (fuel n : ℕ) (bs : Bytes)
    → n < fuel
    → parse_digits 0 (digits fuel n bs) ≡ (if leb n u64_max then parse_digits n bs else none)
unfolding digits
parse_digits-digits zero n bs h = absurd (omega arith)
parse_digits-digits (suc fuel) n bs h = elim (Bool-cases (ltb n 10)) [
  | inl e ↦ rw e (parse_digits-digit 0 n n bs (ground arith) (omega arith))
  | inr e ↦
      let big : 10 ≤ n = ground arith in
      let smaller : n / 10 < fuel = omega arith in
      let last = parse_digits-digit (n / 10) (n % 10) n bs (omega arith) (omega arith) in
      rw (e, parse_digits-digits fuel (n / 10) ((48 + n % 10) ∷ bs) smaller, last)
        (elim (Bool-cases (leb n u64_max)) [
          | inl k ↦
              let fits : leb (n / 10) u64_max ≡ true =
                le→leb (n / 10) u64_max (omega (arith, leb→le n u64_max k)) in
              rw (fits, k)
          | inr k ↦ rw k (elim (Bool-cases (leb (n / 10) u64_max)) [ inl f ↦ rw f | inr f ↦ rw f ])
        ])
]

-- the digits of a number do not start with a sign
digits-head :
    (fuel n : ℕ) (bs : Bytes)
    → n < fuel
    → (b : ℕ) × (rest : Bytes) × (digits fuel n bs ≡ b ∷ rest) × (48 ≤ b)
unfolding digits
digits-head zero n bs h = absurd (omega arith)
digits-head (suc fuel) n bs h = elim (Bool-cases (ltb n 10)) [
  | inl e ↦ rw e (48 + n, bs, refl, omega arith)
  | inr e ↦
      let big : 10 ≤ n = ground arith in
      rw e (digits-head fuel (n / 10) ((48 + n % 10) ∷ bs) (omega arith))
]

parse_u64-unsigned :
    (b : ℕ) (rest : Bytes) → 48 ≤ b → parse_u64 (b ∷ rest) ≡ parse_digits 0 (b ∷ rest)
unfolding parse_u64
parse_u64-unsigned b [] h = refl
parse_u64-unsigned b (c ∷ bs) h = let unsigned : (b == 43) ≡ false = ground arith in rw unsigned

-- A number parses back from its digits exactly where it fits 64 bits.
pub parse_u64-decimal : (n : ℕ) → parse_u64 (decimal n) ≡ (if leb n u64_max then some n else none)
unfolding decimal parse_digits
parse_u64-decimal n =
    let head = digits-head (n + 1) n [] (omega arith) in
    let from_digits : parse_u64 (digits (n + 1) n []) ≡ parse_digits 0 (digits (n + 1) n []) =
      rw head.2 (parse_u64-unsigned head.0 head.1 head.3) in
    from_digits ∙ parse_digits-digits (n + 1) n [] (omega arith)
