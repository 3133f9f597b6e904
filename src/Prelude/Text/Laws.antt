-- ===== src/Prelude/Text/Laws.antt =====
-- Splitting at a byte that the parts are free of, and trimming what has no white space.
use Prim.Native.Nat.{ℕ, zero, suc, ◌+◌, ◌/◌, ◌%◌, ◌<◌}
use mathlib.Core.Path.{◌≡◌, refl}
use mathlib.Core.Bool.{Bool, true, not}
use mathlib.Core.Option.{some}
use mathlib.Core.List.{[], ◌∷◌, ◌++◌}
use mathlib.Core.Logic.{inl, inr}
use native.Mathlib.Omega.{arith}
use cellora.Prelude.Tests.{ltb, ◌==◌, Bool-cases}
use cellora.Prelude.Lists.{every}
use cellora.Prelude.Strings.{Bytes}
use cellora.Prelude.Text.{
  split_on, split_once_at, is_whitespace, trim_start, trim_end, trim, digits, decimal,
}

-- No byte is `c`.
abbrev pub free_of : ℕ → Bytes → Bool
free_of c = every λ b. not (b == c)

abbrev pub no_space : Bytes → Bool
no_space = every λ b. not (is_whitespace b)

pub split_on-free : (c : ℕ) (xs : Bytes) → free_of c xs ≡ true → split_on c xs ≡ xs ∷ []
unfolding split_on every
split_on-free c [] h = refl
split_on-free c (b ∷ bs) h = elim (Bool-cases (b == c)) [
  | inl e ↦ absurd (cc (rw e at h))
  | inr e ↦ rw (e, split_on-free c bs (rw e at h))
]

pub split_on-append :
    (c : ℕ) (xs ys : Bytes) → free_of c xs ≡ true → split_on c (xs ++ (c ∷ ys)) ≡ xs ∷ split_on c ys
unfolding split_on every
split_on-append c [] ys h = ground arith
split_on-append c (b ∷ bs) ys h = elim (Bool-cases (b == c)) [
  | inl e ↦ absurd (cc (rw e at h))
  | inr e ↦ rw (e, split_on-append c bs ys (rw e at h))
]

pub split_once_at-append :
    (c : ℕ) (xs ys : Bytes) → free_of c xs ≡ true → split_once_at c (xs ++ (c ∷ ys)) ≡ some (xs, ys)
unfolding split_once_at every
split_once_at-append c [] ys h = ground arith
split_once_at-append c (b ∷ bs) ys h = elim (Bool-cases (b == c)) [
  | inl e ↦ absurd (cc (rw e at h))
  | inr e ↦ rw (e, split_once_at-append c bs ys (rw e at h))
]

trim_start-free : (bs : Bytes) → no_space bs ≡ true → trim_start bs ≡ bs
unfolding trim_start every
trim_start-free [] h = refl
trim_start-free (b ∷ bs) h = ground arith

trim_end-free : (bs : Bytes) → no_space bs ≡ true → trim_end bs ≡ bs
unfolding trim_end every
trim_end-free [] h = refl
trim_end-free (b ∷ bs) h = ground (arith, trim_end-free bs)

pub trim-free : (bs : Bytes) → no_space bs ≡ true → trim bs ≡ bs
unfolding trim
trim-free bs h = rw (trim_start-free bs h) (trim_end-free bs h)

-- A leading blank is dropped.
pub trim-blank : (bs : Bytes) → trim (32 ∷ bs) ≡ trim bs
unfolding trim trim_start is_whitespace
trim-blank bs = refl

-- The digits of a number have every property that the ten digits have.
pub digits-every :
    (p : ℕ → Bool) (fuel n : ℕ) (acc : Bytes)
    → ((d : ℕ) → d < 10 → p (48 + d) ≡ true)
    → every p acc ≡ true
    → every p (digits fuel n acc) ≡ true
unfolding digits every
digits-every p zero n acc h k = k
digits-every p (suc fuel) n acc h k = elim (Bool-cases (ltb n 10)) [
  | inl e ↦ rw (e, h n (ground arith)) k
  | inr e ↦
      rw e (digits-every p fuel (n / 10) ((48 + n % 10) ∷ acc) h (rw (h (n % 10) (omega arith)) k))
]

pub decimal-every :
    (p : ℕ → Bool) (n : ℕ) → ((d : ℕ) → d < 10 → p (48 + d) ≡ true) → every p (decimal n) ≡ true
unfolding decimal every
decimal-every p n h = digits-every p (n + 1) n [] h refl
