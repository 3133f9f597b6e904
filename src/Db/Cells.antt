-- ===== src/Db/Cells.antt =====
-- crates/db/src/cells.rs, the statements that write, and the constraints of the `cells` table.
use mathlib.Core.Option
use cellora.Prelude.{
  ℕ, Bool, not, ◌&&◌, none, some, List, [], ◌∷◌, map, bytes_eq, ok, guard, ◌>>=◌, ◌>>◌, ltb, ◌==◌,
  if◌then◌else◌, any, select, length,
}
use cellora.Db.Rows.{BlockRow, CellRow, StoredCell, ConsumedCellRef, as_i16}
use cellora.Db.Schema.{
  Database, DbResult, Connection, send, unique_violation, foreign_key_violation, insert_cell,
  update_consumed, restore_cells,
}

-- A new row is live: the INSERT leaves the three `consumed_*` columns NULL.
unfoldable pub stored : CellRow → StoredCell
stored row = record {
  tx_hash = row.tx_hash;
  output_index = row.output_index;
  block_number = row.block_number;
  capacity_shannons = row.capacity_shannons;
  lock_code_hash = row.lock_code_hash;
  lock_hash_type = as_i16 row.lock_hash_type;
  lock_args = row.lock_args;
  lock_hash = row.lock_hash;
  type_code_hash = row.type_code_hash;
  type_hash_type = Option.map as_i16 row.type_hash_type;
  type_args = row.type_args;
  type_hash = row.type_hash;
  content = row.content;
  consumed_by_tx_hash = none;
  consumed_by_input_index = none;
  consumed_at_block_number = none;
}

-- PRIMARY KEY (tx_hash, output_index); block_number REFERENCES blocks(number)
unfoldable pub insert : Connection → CellRow → Database → DbResult Database
insert conn row db = do
  send conn (insert_cell row.tx_hash row.output_index)
  guard
      (not
        (any (λ c. bytes_eq c.tx_hash row.tx_hash && c.output_index == row.output_index) db.cells))
      unique_violation
  guard (any (λ (b : BlockRow). b.number == row.block_number) db.blocks) foreign_key_violation
  ok (record db { cells = stored row ∷ db.cells })

unfoldable pub insert_batch : Connection → List CellRow → Database → DbResult Database
insert_batch conn [] db = ok db
insert_batch conn (row ∷ rows) db = do db' ← insert conn row db; insert_batch conn rows db'

-- WHERE tx_hash = $1 AND output_index = $2
unfoldable pub refers_to : ConsumedCellRef → StoredCell → Bool
refers_to r c = bytes_eq r.tx_hash c.tx_hash && r.output_index == c.output_index

abbrev pub consume : ConsumedCellRef → StoredCell → StoredCell
consume r c = record c {
  consumed_by_tx_hash = some r.consumed_by_tx_hash;
  consumed_by_input_index = some r.consumed_by_input_index;
  consumed_at_block_number = some r.consumed_at_block_number;
}

unfoldable pub mark : ConsumedCellRef → StoredCell → StoredCell
mark r c = if refers_to r c then consume r c else c

unfoldable pub mark_consumed : Connection → List ConsumedCellRef → Database → DbResult Database
mark_consumed conn [] db = ok db
mark_consumed conn (r ∷ refs) db = do
  send conn (update_consumed r.tx_hash r.output_index)
  mark_consumed conn refs (record db { cells = map (mark r) db.cells })

-- WHERE consumed_at_block_number > $1; a NULL never is
unfoldable pub consumed_above : ℕ → StoredCell → Bool
consumed_above ancestor c = elim c.consumed_at_block_number [
  | none ↦ Bool.false
  | some n ↦ ltb ancestor n
]

abbrev pub release : StoredCell → StoredCell
release c = record c {
  consumed_by_tx_hash = none;
  consumed_by_input_index = none;
  consumed_at_block_number = none;
}

unfoldable pub restore : ℕ → StoredCell → StoredCell
restore ancestor c = if consumed_above ancestor c then release c else c

-- the number of rows updated, and the table after
unfoldable pub restore_consumed_above : Connection → ℕ → Database → DbResult (ℕ × Database)
restore_consumed_above conn ancestor db = do
  send conn (restore_cells ancestor)
  ok (
    length (select (consumed_above ancestor) db.cells),
    record db { cells = map (restore ancestor) db.cells },
  )
