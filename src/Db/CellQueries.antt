-- ===== src/Db/CellQueries.antt =====
-- crates/db/src/cells.rs, the statements that read: pages of cells by lock or type hash.
pub mod Order
pub mod Pages
use cellora.Prelude.{
  ℕ, Bool, true, false, ◌&&◌, ◌||◌, not, Option, none, some, List, [], ◌∷◌, Bytes, bytes_eq, ok,
  ◌>>◌, ltb, ◌==◌, select, take,
}
use cellora.Prelude.Sorting.{order_desc}
use cellora.Db.Rows.{BlockRow, StoredCell}
use cellora.Db.Schema.{Database, DbResult, Connection, send, select_cells}
use cellora.Db.Blocks.{row_at}

pub data LivenessFilter : Type 0 where
  only_live only_consumed any_liveness : LivenessFilter

unfoldable pub as_bool : LivenessFilter → Option Bool
as_bool only_live = some true
as_bool only_consumed = some false
as_bool any_liveness = none

pub record CellCursor : Type 0 where
  pub block_number : ℕ
  pub tx_hash : Bytes
  pub output_index : ℕ

-- A joined row: the cell with the hash of its block.
pub record Cell : Type 0 where
  pub row : StoredCell
  pub block_hash : Bytes

-- The ORDER BY key of a row.
abbrev pub key : Cell → CellCursor
key c = record {
  block_number = c.row.block_number;
  tx_hash = c.row.tx_hash;
  output_index = c.row.output_index;
}

-- `<` on BYTEA
unfoldable pub bytes_lt : Bytes → Bytes → Bool
bytes_lt [] [] = false
bytes_lt [] (y ∷ ys) = true
bytes_lt (x ∷ xs) [] = false
bytes_lt (x ∷ xs) (y ∷ ys) = ltb x y || (x == y && bytes_lt xs ys)

-- (c.block_number, c.tx_hash, c.output_index) < ($3, $4, $5)
unfoldable pub row_less : CellCursor → CellCursor → Bool
row_less a b =
    ltb a.block_number b.block_number
    || (a.block_number == b.block_number
        && (bytes_lt a.tx_hash b.tx_hash
            || (bytes_eq a.tx_hash b.tx_hash && ltb a.output_index b.output_index)))

-- ($2 IS NULL OR (c.consumed_by_tx_hash IS NULL) = $2)
unfoldable pub has_liveness : Option Bool → StoredCell → Bool
has_liveness none c = true
has_liveness (some true) c = elim c.consumed_by_tx_hash [ none ↦ true | some _ ↦ false ]
has_liveness (some false) c = elim c.consumed_by_tx_hash [ none ↦ false | some _ ↦ true ]

-- ($3 IS NULL OR the row comparison)
unfoldable pub before : Option CellCursor → Cell → Bool
before none c = true
before (some cursor) c = row_less (key c) cursor

-- c.lock_hash = $1, and c.type_hash = $1, which a NULL is not
abbrev pub locked_by : Bytes → StoredCell → Bool
locked_by hash c = bytes_eq c.lock_hash hash

unfoldable pub typed_by : Bytes → StoredCell → Bool
typed_by hash c = elim c.type_hash [ none ↦ false | some stored ↦ bytes_eq stored hash ]

-- INNER JOIN blocks b ON b.number = c.block_number, where `blocks.number` is a primary key
abbrev pub joined : Option BlockRow → StoredCell → List Cell → List Cell
joined none c cs = cs
joined (some b) c cs = record { row = c; block_hash = b.hash } ∷ cs

unfoldable pub join : List BlockRow → List StoredCell → List Cell
join blocks [] = []
join blocks (c ∷ cs) = joined (row_at c.block_number blocks) c (join blocks cs)

-- The rows of the SELECT before its ORDER BY, without the cursor's condition.
unfoldable pub matching : (StoredCell → Bool) → LivenessFilter → Database → List Cell
matching by liveness db =
    select (λ c. by c.row && has_liveness (as_bool liveness) c.row) (join db.blocks db.cells)

unfoldable pub query :
    (StoredCell → Bool) → LivenessFilter → Option CellCursor → ℕ → Database → List Cell
query by liveness cursor limit db = take limit (
    order_desc (λ a b. row_less (key a) (key b)) (select (before cursor) (matching by liveness db)))

unfoldable pub query_by_lock_hash :
    Connection → Bytes → LivenessFilter → Option CellCursor → ℕ → Database → DbResult (List Cell)
query_by_lock_hash conn lock_hash liveness cursor limit db = do
  send conn select_cells
  ok (query (locked_by lock_hash) liveness cursor limit db)

unfoldable pub query_by_type_hash :
    Connection → Bytes → LivenessFilter → Option CellCursor → ℕ → Database → DbResult (List Cell)
query_by_type_hash conn type_hash liveness cursor limit db = do
  send conn select_cells
  ok (query (typed_by type_hash) liveness cursor limit db)
