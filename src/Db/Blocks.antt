-- ===== src/Db/Blocks.antt =====
-- crates/db/src/blocks.rs, and the constraints of the `blocks` table.
use mathlib.Core.Option
use cellora.Prelude.{
  ℕ, Bool, not, ◌||◌, Option, none, some, List, [], ◌∷◌, Bytes, bytes_eq, ok, guard, ◌>>◌, ltb, leb,
  ◌==◌, if◌then◌else◌, select, any, length,
}
use cellora.Db.Rows.{BlockRow}
use cellora.Db.Schema.{
  Database, DbResult, Connection, send, unique_violation, select_hash, select_block, insert_block,
  delete_blocks,
}

-- PRIMARY KEY (number) and UNIQUE (hash)
unfoldable pub clashes : BlockRow → List BlockRow → Bool
clashes row = any (λ b. b.number == row.number || bytes_eq b.hash row.hash)

unfoldable pub insert : Connection → BlockRow → Database → DbResult Database
insert conn row db = do
  send conn (insert_block row.number)
  guard (not (clashes row db.blocks)) unique_violation
  ok (record db { blocks = row ∷ db.blocks })

-- WHERE number = $1
unfoldable pub row_at : ℕ → List BlockRow → Option BlockRow
row_at n [] = none
row_at n (b ∷ bs) = if b.number == n then some b else row_at n bs

abbrev pub hash_in : List BlockRow → ℕ → Option Bytes
hash_in blocks n = Option.map (λ b. b.hash) (row_at n blocks)

unfoldable pub hash_at : Connection → ℕ → Database → DbResult (Option Bytes)
hash_at conn n db = do send conn (select_hash n); ok (hash_in db.blocks n)

-- the rows that stay when every block above `ancestor` goes, and with ON DELETE CASCADE what
-- belongs to those blocks
unfoldable pub cascade : ℕ → Database → Database
cascade ancestor db = record db {
  blocks = select (λ b. leb b.number ancestor) db.blocks;
  transactions = select (λ t. leb t.block_number ancestor) db.transactions;
  cells = select (λ c. leb c.block_number ancestor) db.cells;
}

unfoldable pub delete_above : Connection → ℕ → Database → DbResult (ℕ × Database)
delete_above conn ancestor db = do
  send conn (delete_blocks ancestor)
  ok (length (select (λ b. ltb ancestor b.number) db.blocks), cascade ancestor db)

-- ORDER BY number DESC LIMIT 1
unfoldable pub newer : BlockRow → Option BlockRow → BlockRow
newer b none = b
newer b (some c) = if ltb b.number c.number then c else b

unfoldable pub latest_row : List BlockRow → Option BlockRow
unfolding newer
latest_row [] = none
latest_row (b ∷ bs) = some (newer b (latest_row bs))

unfoldable pub latest : Connection → Database → DbResult (Option BlockRow)
latest conn db = do send conn select_block; ok (latest_row db.blocks)

unfoldable pub get_by_number : Connection → ℕ → Database → DbResult (Option BlockRow)
get_by_number conn n db = do send conn select_block; ok (row_at n db.blocks)
