-- ===== src/Api/Pagination.antt =====
-- crates/api/src/pagination.rs. base64, serde_json and hex are the fields of `Codecs`.
use cellora.Prelude.{
  ℕ, ◌≡◌, Option, some, Bytes, codes, ok, ok_or, ◌>>=◌, ◌>>◌, guard, ◌==◌, ◌∷◌, length,
}
use cellora.Db.CellQueries.{CellCursor}
use cellora.Api.Error.{ApiResult, invalid_cursor}
use cellora.Api.Hex.{HexDecode, decode_prefixed, strip_0x}

pub record CellsCursorWire : Type 0 where
  pub bn : ℕ
  pub tx : Bytes
  pub oi : ℕ

pub record Codecs : Type 0 where
  pub hex_encode : Bytes → Bytes
  pub hex_decode : HexDecode
  pub to_vec : CellsCursorWire → Bytes
  pub from_slice : Bytes → Option CellsCursorWire
  pub base64_encode : Bytes → Bytes
  pub base64_decode : Bytes → Option Bytes

unfoldable pub encode_cells_cursor : Codecs → CellCursor → Bytes
encode_cells_cursor c cursor = c.base64_encode (
    c.to_vec (record {
      bn = cursor.block_number;
      tx = 48 ∷ 120 ∷ c.hex_encode cursor.tx_hash;
      oi = cursor.output_index;
    }))

unfoldable pub decode_cells_cursor : Codecs → Bytes → ApiResult CellCursor
decode_cells_cursor c raw = do
  bytes ← ok_or (c.base64_decode raw) (invalid_cursor (codes "cursor is not valid base64url"))
  wire ← ok_or (c.from_slice bytes) (invalid_cursor (codes "cursor is not well-formed"))
  tx_hash ←
      ok_or (decode_prefixed c.hex_decode wire.tx)
        (invalid_cursor (codes "cursor tx_hash is not valid hex"))
  guard (length tx_hash == 32) (invalid_cursor (codes "cursor tx_hash must be exactly 32 bytes"))
  ok (record { block_number = wire.bn; tx_hash = tx_hash; output_index = wire.oi })

-- What the libraries document: what they encode, they decode.
pub record RoundTrips (c : Codecs) : Type 0 where
  pub hex : (bs : Bytes) → c.hex_decode (c.hex_encode bs) ≡ some bs
  pub json : (w : CellsCursorWire) → c.from_slice (c.to_vec w) ≡ some w
  pub base64 : (bs : Bytes) → c.base64_decode (c.base64_encode bs) ≡ some bs

-- A cursor whose transaction hash has 32 bytes survives the trip through the client.
pub decode-encode_cells_cursor :
    (c : Codecs)
    → RoundTrips c
    → (cursor : CellCursor) → length cursor.tx_hash ≡ 32
    → decode_cells_cursor c (encode_cells_cursor c cursor) ≡ ok cursor
unfolding decode_cells_cursor encode_cells_cursor decode_prefixed strip_0x
decode-encode_cells_cursor c trips cursor h = rw (trips.base64, trips.json, trips.hex, h)
