-- ===== src/Db/ReorgLog.antt =====
-- crates/db/src/reorg_log.rs: the audit table. `now` is the clock of the transaction.
use cellora.Prelude.{ℕ, ◌+◌, none, some, ◌∷◌, map, Bytes, ok, ◌>>◌, ◌==◌, if◌then◌else◌}
use cellora.Db.Rows.{ReorgLogEntry, in_progress, completed, failed}
use cellora.Db.Schema.{Database, DbResult, Connection, send, insert_log, update_log}

unfoldable pub insert : Connection → ℕ → Bytes → Bytes → ℕ → Database → DbResult (ℕ × Database)
insert conn number node_hash indexed_hash depth db = do
  send conn insert_log
  ok (
    db.next_log_id,
    record db {
      reorg_log =
          record {
            id = db.next_log_id;
            divergence_block_number = number;
            divergence_node_hash = node_hash;
            divergence_indexed_hash = indexed_hash;
            depth = depth;
            completed_at = none;
            status = in_progress;
            error = none;
          }
          ∷ db.reorg_log;
      next_log_id = db.next_log_id + 1;
    },
  )

unfoldable pub complete : ℕ → ℕ → ReorgLogEntry → ReorgLogEntry
complete id now e =
    if e.id == id then record e { status = completed; completed_at = some now } else e

unfoldable pub mark_completed : Connection → ℕ → ℕ → Database → DbResult Database
mark_completed conn id now db = do
  send conn update_log
  ok (record db { reorg_log = map (complete id now) db.reorg_log })

unfoldable pub fail : ℕ → Bytes → ℕ → ReorgLogEntry → ReorgLogEntry
fail id message now e =
    if e.id == id
    then record e { status = failed; completed_at = some now; error = some message }
    else e

unfoldable pub mark_failed : Connection → ℕ → Bytes → ℕ → Database → DbResult Database
mark_failed conn id message now db = do
  send conn update_log
  ok (record db { reorg_log = map (fail id message now) db.reorg_log })
