-- ===== src/Prelude/Text.antt =====
-- What the program uses of `str`: split, split_once, trim, to_string and parse, on ASCII bytes.
pub mod Laws
pub mod Numbers
use Prim.Native.Nat.{ℕ, zero, suc, ◌+◌, ◌-◌, ◌*◌, ◌/◌, ◌%◌}
use mathlib.Core.Bool.{Bool, true, false, ◌&&◌, ◌||◌}
use mathlib.Core.Option.{Option, none, some}
use mathlib.Core.List.{List, [], ◌∷◌}
use cellora.Prelude.Tests.{ltb, leb, ◌==◌, if◌then◌else◌}
use cellora.Prelude.Strings.{Bytes}
use cellora.Prelude.Int.{u64_max}

-- a byte in front of the first part
abbrev pub onto_first : ℕ → List Bytes → List Bytes
onto_first b [] = (b ∷ []) ∷ []
onto_first b (part ∷ parts) = (b ∷ part) ∷ parts

-- str::split(c)
unfoldable pub split_on : ℕ → Bytes → List Bytes
split_on c [] = [] ∷ []
split_on c (b ∷ bs) = let rest = split_on c bs in if b == c then [] ∷ rest else onto_first b rest

abbrev onto_left : ℕ → Option (Bytes × Bytes) → Option (Bytes × Bytes)
onto_left b none = none
onto_left b (some (x, y)) = some (b ∷ x, y)

-- str::split_once(c)
unfoldable pub split_once_at : ℕ → Bytes → Option (Bytes × Bytes)
split_once_at c [] = none
split_once_at c (b ∷ bs) =
    let rest = split_once_at c bs in if b == c then some ([], bs) else onto_left b rest

-- char::is_whitespace on an ASCII byte
unfoldable pub is_whitespace : ℕ → Bool
is_whitespace b = b == 32 || (leb 9 b && leb b 13)

unfoldable pub trim_start : Bytes → Bytes
trim_start [] = []
trim_start (b ∷ bs) = let rest = trim_start bs in if is_whitespace b then rest else b ∷ bs

abbrev pub is_empty : Bytes → Bool
is_empty [] = true
is_empty (b ∷ bs) = false

unfoldable pub trim_end : Bytes → Bytes
trim_end [] = []
trim_end (b ∷ bs) =
    let rest = trim_end bs in if is_empty rest && is_whitespace b then [] else b ∷ rest

unfoldable pub trim : Bytes → Bytes
trim bs = trim_end (trim_start bs)

-- the decimal digits of `n` in front of `acc`; `n + 1` rounds are enough
unfoldable pub digits : ℕ → ℕ → Bytes → Bytes
digits zero n acc = acc
digits (suc fuel) n acc =
    let rest = digits fuel (n / 10) ((48 + n % 10) ∷ acc) in
    if ltb n 10 then (48 + n) ∷ acc else rest

-- to_string() of an unsigned number
unfoldable pub decimal : ℕ → Bytes
decimal n = digits (n + 1) n []

unfoldable pub is_digit : ℕ → Bool
is_digit b = leb 48 b && leb b 57

-- the loop of u64::from_str, with `checked_mul` and `checked_add`
unfoldable pub parse_digits : ℕ → Bytes → Option ℕ
parse_digits acc [] = some acc
parse_digits acc (b ∷ bs) =
    let next = acc * 10 + (b - 48) in
    let rest = parse_digits next bs in if is_digit b && leb next u64_max then rest else none

-- parse::<u64>(): a sign in front of at least one digit is skipped
unfoldable pub parse_u64 : Bytes → Option ℕ
parse_u64 [] = none
parse_u64 (b ∷ []) = parse_digits 0 (b ∷ [])
parse_u64 (b ∷ c ∷ bs) = if b == 43 then parse_digits 0 (c ∷ bs) else parse_digits 0 (b ∷ c ∷ bs)
