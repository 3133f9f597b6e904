-- ===== src/Api/Proofs/Tests.antt =====
-- A proof that the node has, on small data.
use cellora.Prelude.{◌≡◌, refl, ℕ, some, [], ◌∷◌, Bytes, bytes_eq, codes, ok, if◌then◌else◌}
use cellora.Api.Hex
use cellora.Api.Proofs
use cellora.Api.Proofs.{
  Json, null, string, other, object, no_members, member, Ckb, ProofResponse, passthrough,
}
use cellora.Api.Proofs.Proven.{Proven, passthrough-Proven}

abbrev wide : ℕ → Bytes
wide b =
    b ∷ b ∷ b ∷ b ∷ b ∷ b ∷ b ∷ b ∷ b ∷ b ∷ b ∷ b ∷ b ∷ b ∷ b ∷ b ∷ b ∷ b ∷ b ∷ b ∷ b ∷ b ∷ b ∷ b
    ∷ b ∷ b ∷ b ∷ b ∷ b ∷ b ∷ b ∷ b ∷ []

-- a decoder of which the first letter counts
abbrev decode : Hex.HexDecode
decode [] = some []
decode (b ∷ bs) = some (wide b)

abbrev node : Ckb
node method argument =
    if bytes_eq method (codes "get_header")
    then ok (other (codes "header"))
    else ok (
        object (
          member (codes "block_hash") (string (codes "0xb"))
            (member (codes "proof") (other (codes "lemmas")) no_members)))

abbrev shown : ProofResponse
shown = record {
  tx_hash = wide 97;
  block_hash = wide 98;
  block_header = other (codes "header");
  proof = object (member (codes "proof") (other (codes "lemmas")) no_members);
}

proven : passthrough decode (λ bytes. bytes) (some node) (codes "0xa") ≡ ok shown
unfolding passthrough Proofs.parse_tx_hash Proofs.is_json_null Proofs.str_of Proofs.get
    Proofs.find_member Proofs.strip_block_hash Proofs.remove Hex.decode_prefixed Hex.strip_0x
    Hex.try_from_slice bytes_eq
proven = refl

passthrough-Proven_example : Proven decode (λ bytes. bytes) (some node) (codes "0xa") shown
passthrough-Proven_example =
    passthrough-Proven decode (λ bytes. bytes) (some node) (codes "0xa") shown proven
