-- ===== src/Db/Checkpoint.antt =====
-- crates/db/src/checkpoint.rs: the singleton row of `indexer_state`.
use cellora.Prelude.{ℕ, Option, some, Bytes, ok, ◌>>◌}
use cellora.Db.Rows.{CheckpointRow}
use cellora.Db.Schema.{Database, DbResult, Connection, send, select_state, upsert_state}

unfoldable pub read : Connection → Database → DbResult (Option CheckpointRow)
read conn db = do send conn select_state; ok db.indexer_state

unfoldable pub upsert : Connection → ℕ → Bytes → Database → DbResult Database
upsert conn last_indexed_block last_indexed_hash db = do
  send conn upsert_state
  ok (record db {
    indexer_state =
        some (record {
          last_indexed_block = last_indexed_block;
          last_indexed_hash = last_indexed_hash;
        });
  })
