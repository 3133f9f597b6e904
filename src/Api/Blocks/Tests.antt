-- ===== src/Api/Blocks/Tests.antt =====
-- The block routes on a table of two blocks.
use cellora.Prelude.{
  ◌≡◌, refl, ℕ, [], ◌∷◌, Bytes, codes, ok, err, arith, any, bytes_eq, ◌^◌, select,
}
use cellora.Prelude.Text
use cellora.Prelude.Text.{decimal}
use cellora.Db.Rows.{BlockRow}
use cellora.Db.Schema.{Database, empty, healthy}
use cellora.Db.Blocks as DbBlocks
use cellora.Api.Error.{not_found}
use cellora.Api.Hex
use cellora.Api.Blocks.{BlockResponse, quoted, try_from, latest, parse_block_number, by_number}
use cellora.Api.Blocks.Served.{parse_block_number-decimal, by_number-insert, by_number-delete_above}
use cellora.Api.Blocks.Latest.{latest-by_number}

abbrev hash : ℕ → Bytes
hash b =
    b ∷ b ∷ b ∷ b ∷ b ∷ b ∷ b ∷ b ∷ b ∷ b ∷ b ∷ b ∷ b ∷ b ∷ b ∷ b ∷ b ∷ b ∷ b ∷ b ∷ b ∷ b ∷ b ∷ b
    ∷ b ∷ b ∷ b ∷ b ∷ b ∷ b ∷ b ∷ b ∷ []

abbrev block : ℕ → BlockRow
block n = record {
  number = n;
  hash = hash n;
  parent_hash = hash 1;
  timestamp_ms = 0;
  epoch = 0;
  transactions_count = 1;
  proposals_count = 0;
  uncles_count = 0;
  nonce = 42;
  dao = hash 0;
}

abbrev shown : ℕ → BlockResponse
shown n = record {
  number = n;
  hash = hash n;
  parent_hash = hash 1;
  timestamp_ms = 0;
  epoch = 0;
  transactions_count = 1;
  proposals_count = 0;
  uncles_count = 0;
  nonce = codes "42";
  dao = hash 0;
}

abbrev one : Database
one = record empty { blocks = block 7 ∷ [] }

abbrev two : Database
two = record empty { blocks = block 8 ∷ block 7 ∷ [] }

inserted : DbBlocks.insert healthy (block 8) one ≡ ok two
unfolding DbBlocks.insert DbBlocks.clashes any bytes_eq
inserted = refl

abbrev text : ℕ → Bytes
text _ = codes "42"

served : by_number text healthy (decimal 8) two ≡ ok (shown 8)
unfolding by_number parse_block_number Text.parse_u64 Text.parse_digits Text.is_digit
    DbBlocks.get_by_number DbBlocks.row_at try_from Hex.try_from_slice decimal Text.digits
served = refl

parse_block_number-decimal_example :
    parse_block_number (decimal (2 ^ 63))
    ≡ err (quoted (codes "block number out of range: ") (decimal (2 ^ 63)))
parse_block_number-decimal_example = parse_block_number-decimal (2 ^ 63)

by_number-insert_example : by_number text healthy (decimal 8) two ≡ try_from text (block 8)
by_number-insert_example = by_number-insert text healthy (block 8) one two 8 inserted (omega arith)

deleted : DbBlocks.delete_above healthy 7 two ≡ ok (1, one)
unfolding DbBlocks.delete_above DbBlocks.cascade select
deleted = refl

by_number-delete_above_example :
    by_number text healthy (decimal 8) one ≡ err (not_found (codes "block not indexed"))
by_number-delete_above_example =
    by_number-delete_above text healthy 7 8 1 two one deleted (omega arith)

newest : latest text healthy two ≡ ok (shown 8)
unfolding latest DbBlocks.latest DbBlocks.latest_row DbBlocks.newer try_from Hex.try_from_slice
newest = refl

latest-by_number_example :
    (by_number text healthy (decimal 8) two ≡ ok (shown 8))
    × (by_number text healthy (decimal 9) two ≡ err (not_found (codes "block not indexed")))
latest-by_number_example = latest-by_number text two (shown 8) 9 newest (omega arith) (omega arith)
