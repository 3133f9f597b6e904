-- ===== src/Api/Hex.antt =====
-- crates/api/src/hex.rs. `hex::decode` of the `hex` crate is a parameter, `HexDecode`.
use cellora.Prelude.{
  ℕ, ◌+◌, ◌/◌, ◌%◌, Option, none, some, [], ◌∷◌, Bytes, ok, err, ltb, ◌==◌, if◌then◌else◌, length,
}
use cellora.Api.Error.{ApiResult, internal}

abbrev pub HexDecode : Type 0
HexDecode = Bytes → Option Bytes

-- one lowercase digit of `{:02x}`
unfoldable pub digit : ℕ → ℕ
digit n = if ltb n 10 then 48 + n else 87 + n

unfoldable pub encode : Bytes → Bytes
encode [] = []
encode (b ∷ bs) = digit (b / 16) ∷ digit (b % 16) ∷ encode bs

unfoldable pub encode_prefixed : Bytes → Bytes
encode_prefixed bytes = 48 ∷ 120 ∷ encode bytes

-- strip_prefix("0x")
unfoldable pub strip_0x : Bytes → Option Bytes
strip_0x [] = none
strip_0x (a ∷ []) = none
strip_0x (a ∷ b ∷ rest) = if a == 48 then (if b == 120 then some rest else none) else none

unfoldable pub decode_prefixed : HexDecode → Bytes → Option Bytes
decode_prefixed decode input = elim (strip_0x input) [ none ↦ none | some body ↦ decode body ]

-- `Hex32::try_from_slice`: the bytes of a `Hex32` are 32
unfoldable pub try_from_slice : Bytes → ApiResult Bytes
try_from_slice slice = if length slice == 32 then ok slice else err internal
