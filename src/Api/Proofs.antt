-- ===== src/Api/Proofs.antt =====
-- crates/api/src/routes/proofs.rs. The node's JSON-RPC client and the `hex` crate are parameters.
pub mod Proven
mod Tests
use cellora.Prelude.{
  Bool, true, false, not, Option, none, some, List, [], ◌∷◌, ◌++◌, Bytes, bytes_eq, codes, Result,
  ok, ok_or, map_err, guard, ◌>>=◌, ◌>>◌, length, ◌==◌, if◌then◌else◌,
}
use cellora.Prelude.Text.{decimal}
use cellora.Indexer.Chain.{CommonError}
use cellora.Api.Error.{ApiError, ApiResult, bad_request, not_found, upstream_unavailable, internal}
use cellora.Api.Hex.{HexDecode, decode_prefixed, try_from_slice}

-- `serde_json::Value`: what is neither null, a string nor an object is kept as its text, and the
-- members of an object have distinct names.
mutual
  pub data Json : Type 0 where
    null : Json
    string : Bytes → Json
    other : Bytes → Json
    object : Members → Json

  pub data Members : Type 0 where
    no_members : Members
    member : Bytes → Json → Members → Members

unfoldable pub is_json_null : Json → Bool
is_json_null null = true
is_json_null (string s) = false
is_json_null (other s) = false
is_json_null (object ms) = false

unfoldable pub find_member : Bytes → Members → Option Json
find_member name no_members = none
find_member name (member n v ms) =
    let rest = find_member name ms in if bytes_eq n name then some v else rest

-- Value::get
unfoldable pub get : Bytes → Json → Option Json
get name null = none
get name (string s) = none
get name (other s) = none
get name (object ms) = find_member name ms

unfoldable pub str_of : Option Json → Option Bytes
str_of none = none
str_of (some null) = none
str_of (some (string s)) = some s
str_of (some (other s)) = none
str_of (some (object ms)) = none

-- Map::remove
unfoldable pub remove : Bytes → Members → Members
remove name no_members = no_members
remove name (member n v ms) =
    let rest = remove name ms in if bytes_eq n name then rest else member n v rest

unfoldable pub strip_block_hash : Json → Json
strip_block_hash null = null
strip_block_hash (string s) = string s
strip_block_hash (other s) = other s
strip_block_hash (object ms) = object (remove (codes "block_hash") ms)

unfoldable pub parse_tx_hash : HexDecode → Bytes → ApiResult Bytes
parse_tx_hash decode raw = do
  bytes ←
      ok_or (decode_prefixed decode raw)
        (bad_request (codes "'" ++ raw ++ codes "' is not 0x-prefixed hex"))
  guard (length bytes == 32) (
      bad_request
        (codes "tx_hash must be exactly 32 bytes (got " ++ decimal (length bytes) ++ codes ")"))
  ok bytes

-- The client's `call`: a method and the one string among its parameters.
abbrev pub Ckb : Type 0
Ckb = Bytes → Bytes → Result CommonError Json

pub record ProofResponse : Type 0 where
  pub tx_hash : Bytes
  pub block_hash : Bytes
  pub block_header : Json
  pub proof : Json

abbrev pub node_unreachable : CommonError → ApiError
node_unreachable _ = upstream_unavailable (codes "ckb node unreachable")

unfoldable pub passthrough :
    HexDecode → (Bytes → Bytes) → Option Ckb → Bytes → ApiResult ProofResponse
passthrough decode hex_encode node raw = do
  tx_hash_bytes ← parse_tx_hash decode raw
  ckb ← ok_or node (upstream_unavailable (codes "ckb node not configured"))
  proof_raw ←
      map_err node_unreachable
        (ckb (codes "get_transaction_proof") (codes "0x" ++ hex_encode tx_hash_bytes))
  guard (not (is_json_null proof_raw)) (not_found (codes "no proof available for this transaction"))
  block_hash_str ← ok_or (str_of (get (codes "block_hash") proof_raw)) internal
  header_raw ← map_err node_unreachable (ckb (codes "get_header") block_hash_str)
  guard (not (is_json_null header_raw))
      (upstream_unavailable (codes "ckb node returned proof for a block it can no longer header"))
  block_hash_bytes ← ok_or (decode_prefixed decode block_hash_str) internal
  tx_hash ← try_from_slice tx_hash_bytes
  block_hash ← try_from_slice block_hash_bytes
  ok (record {
    tx_hash = tx_hash;
    block_hash = block_hash;
    block_header = header_raw;
    proof = strip_block_hash proof_raw;
  })
