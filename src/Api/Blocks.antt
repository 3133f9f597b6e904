-- ===== src/Api/Blocks.antt =====
-- crates/api/src/routes/blocks.rs. The text of a `BigDecimal` is a parameter, and `indexed_at`, which
-- the server fills from its clock, is not kept.
pub mod Served
pub mod Latest
mod Tests
use cellora.Prelude.{ℕ, ◌++◌, Bytes, codes, Result, ok, ok_or, map_err, guard, leb, ◌>>=◌, ◌>>◌}
use cellora.Prelude.Int.{i64_max}
use cellora.Prelude.Text.{parse_u64}
use cellora.Db.Rows.{BlockRow}
use cellora.Db.Schema.{Database, Connection}
use cellora.Db.Blocks
use cellora.Api.Error.{ApiError, ApiResult, bad_request, not_found, from_db}
use cellora.Api.Hex.{try_from_slice}

pub record BlockResponse : Type 0 where
  pub number : ℕ
  pub hash : Bytes
  pub parent_hash : Bytes
  pub timestamp_ms : ℕ
  pub epoch : ℕ
  pub transactions_count : ℕ
  pub proposals_count : ℕ
  pub uncles_count : ℕ
  pub nonce : Bytes
  pub dao : Bytes

-- `BigDecimal::to_string`
abbrev pub NonceText : Type 0
NonceText = ℕ → Bytes

-- `TryFrom<Block>`
unfoldable pub try_from : NonceText → BlockRow → ApiResult BlockResponse
try_from to_string block = do
  hash ← try_from_slice block.hash
  parent_hash ← try_from_slice block.parent_hash
  dao ← try_from_slice block.dao
  ok (record {
    number = block.number;
    hash = hash;
    parent_hash = parent_hash;
    timestamp_ms = block.timestamp_ms;
    epoch = block.epoch;
    transactions_count = block.transactions_count;
    proposals_count = block.proposals_count;
    uncles_count = block.uncles_count;
    nonce = to_string block.nonce;
    dao = dao;
  })

unfoldable pub latest : NonceText → Connection → Database → ApiResult BlockResponse
latest to_string conn db = do
  found ← map_err from_db (Blocks.latest conn db)
  block ← ok_or found (not_found (codes "no blocks indexed yet"))
  try_from to_string block

abbrev pub quoted : Bytes → Bytes → ApiError
quoted text raw = bad_request (text ++ codes "'" ++ raw ++ codes "'")

unfoldable pub parse_block_number : Bytes → ApiResult ℕ
parse_block_number raw = do
  parsed ← ok_or (parse_u64 raw) (quoted (codes "invalid block number: ") raw)
  guard (leb parsed i64_max) (quoted (codes "block number out of range: ") raw)
  ok parsed

unfoldable pub by_number : NonceText → Connection → Bytes → Database → ApiResult BlockResponse
by_number to_string conn raw db = do
  number ← parse_block_number raw
  found ← map_err from_db (Blocks.get_by_number conn number db)
  block ← ok_or found (not_found (codes "block not indexed"))
  try_from to_string block
