-- ===== src/Db/Transactions.antt =====
-- crates/db/src/transactions.rs, and the constraints of the `transactions` table.
use cellora.Prelude.{not, List, [], ◌∷◌, bytes_eq, ok, guard, ◌>>=◌, ◌>>◌, ◌==◌, any}
use cellora.Db.Rows.{BlockRow, TransactionRow}
use cellora.Db.Schema.{
  Database, DbResult, Connection, send, unique_violation, foreign_key_violation, insert_transaction,
}

-- PRIMARY KEY (hash); block_number REFERENCES blocks(number)
unfoldable pub insert : Connection → TransactionRow → Database → DbResult Database
insert conn row db = do
  send conn (insert_transaction row.hash)
  guard (not (any (λ t. bytes_eq t.hash row.hash) db.transactions)) unique_violation
  guard (any (λ (b : BlockRow). b.number == row.block_number) db.blocks) foreign_key_violation
  ok (record db { transactions = row ∷ db.transactions })

unfoldable pub insert_batch : Connection → List TransactionRow → Database → DbResult Database
insert_batch conn [] db = ok db
insert_batch conn (row ∷ rows) db = do db' ← insert conn row db; insert_batch conn rows db'
