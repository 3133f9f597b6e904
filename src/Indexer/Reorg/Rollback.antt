-- ===== src/Indexer/Reorg/Rollback.antt =====
-- What the rollback transaction leaves, and that it undoes the indexing of every block above the
-- ancestor.
use cellora.Prelude.{ℕ, ◌-◌, ◌≡◌, some, Bytes, ok, arith, select, length, ltb}
use cellora.Prelude.Int.{clamp_i32}
use cellora.Db.Rows.{BlockRow}
use cellora.Db.Schema.{Database, Connection}
use cellora.Db.Blocks
use cellora.Db.Cells
use cellora.Db.Checkpoint
use cellora.Db.ReorgLog
use cellora.Indexer.Reorg.{Ancestor, RollbackOutcome, rollback_tx}
use cellora.Indexer.Reorg.Survivors.{Survive, select-restore}

-- The effect of a committed rollback to `x` on the database `d`.
pub record RolledBack (x : Ancestor) (previous_tip : ℕ) (d : Database) (o : RollbackOutcome)
    (e : Database) : Type 0 where
  pub survive : Survive x.block_number d e
  pub checkpoint :
      e.indexer_state
      ≡ some (record { last_indexed_block = x.block_number; last_indexed_hash = x.node_hash })
  pub height : o.ancestor_height ≡ x.block_number
  pub depth : o.depth ≡ clamp_i32 (previous_tip - x.block_number)
  pub deleted :
      o.deleted_blocks ≡ length (select (λ (b : BlockRow). ltb x.block_number b.number) d.blocks)

pub rollback_tx-RolledBack :
    (conn : Connection) (now : ℕ) (x : Ancestor) (tip : ℕ) (hash : Bytes) (d : Database)
    (o : RollbackOutcome) (e : Database)
    → rollback_tx conn now x tip hash d ≡ ok (o, e)
    → RolledBack x tip d o e
unfolding rollback_tx ReorgLog.insert Cells.restore_consumed_above Blocks.delete_above
    Checkpoint.upsert ReorgLog.mark_completed Blocks.cascade
rollback_tx-RolledBack conn now x tip hash d o e h =
    ground (arith, select-restore x.block_number d.cells)
