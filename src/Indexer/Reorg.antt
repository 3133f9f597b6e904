-- ===== src/Indexer/Reorg.antt =====
-- crates/indexer/src/reorg.rs: the walk back to the common ancestor, and the rollback.
pub mod Walk
pub mod Search
pub mod Survivors
pub mod Rollback
use cellora.Prelude.{
  ℕ, zero, suc, ◌-◌, Option, none, some, Bytes, bytes_eq, Bool, false, Result, ok, err, ok_or,
  map_err, ◌>>=◌, if◌then◌else◌,
}
use cellora.Prelude.Int.{ℤ, pos, negsuc, i32_max, i64_max, saturating_suc, clamp_i32}
use cellora.Db.Schema.{Database, DbError, DbResult, Connection, send, begin, commit}
use cellora.Db.Blocks
use cellora.Db.Cells
use cellora.Db.Checkpoint
use cellora.Db.ReorgLog
use cellora.Indexer.Chain.{BlockView, CommonError, ckb_rpc, missing_block, Node}

pub data ReorgError : Type 0 where
  rpc : CommonError → ReorgError
  db : DbError → ReorgError
  no_common_ancestor : ReorgError

pub record Ancestor : Type 0 where
  pub block_number : ℕ
  pub node_hash : Bytes

-- indexed.as_deref() == Some(node_hash)
unfoldable pub same_hash : Option Bytes → Bytes → Bool
same_hash none hash = false
same_hash (some stored) hash = bytes_eq stored hash

-- One round of the walk: the node's hash at `height`, when it is the indexed one.
unfoldable pub agree :
    Node → (ℕ → DbResult (Option Bytes)) → ℕ → Result ReorgError (Option Ancestor)
agree node indexed_hash_at height = do
  answer ← map_err rpc (node height)
  block ← ok_or answer (rpc (ckb_rpc (negsuc 31999) (missing_block height)))
  indexed ← map_err db (indexed_hash_at height)
  ok (
      if same_hash indexed block.hash
      then some (record { block_number = height; node_hash = block.hash })
      else none)

-- the rounds from `height` down to 0, and the error after them
unfoldable pub walk_back : Node → (ℕ → DbResult (Option Bytes)) → ℕ → Result ReorgError Ancestor
walk_back node indexed_hash_at zero = do
  found ← agree node indexed_hash_at 0
  ok_or found no_common_ancestor
walk_back node indexed_hash_at (suc height) =
    let rest = walk_back node indexed_hash_at height in
    do
      found ← agree node indexed_hash_at (suc height)
      elim found [ some ancestor ↦ ok ancestor | none ↦ rest ]

-- `while height >= 0`: a negative height ends the loop
unfoldable pub find_common_ancestor :
    Node → ℤ → (ℕ → DbResult (Option Bytes)) → Result ReorgError Ancestor
find_common_ancestor node (pos height) indexed_hash_at = walk_back node indexed_hash_at height
find_common_ancestor node (negsuc _) indexed_hash_at = err no_common_ancestor

pub record RollbackOutcome : Type 0 where
  pub log_id : ℕ
  pub depth : ℕ
  pub deleted_blocks : ℕ
  pub restored_cells : ℕ
  pub ancestor_height : ℕ

-- The transaction. The caller's guard gives `ancestor.block_number < previous_tip`, so the
-- difference of the two is not negative.
unfoldable pub rollback_tx :
    Connection → ℕ → Ancestor → ℕ → Bytes → Database → DbResult (RollbackOutcome × Database)
rollback_tx conn now ancestor previous_tip indexed_hash d0 = do
  let divergence_height = saturating_suc i64_max ancestor.block_number
  let depth = clamp_i32 (previous_tip - ancestor.block_number)
  _ ← send conn begin
  (log_id, d1) ← ReorgLog.insert conn divergence_height ancestor.node_hash indexed_hash depth d0
  (restored_cells, d2) ← Cells.restore_consumed_above conn ancestor.block_number d1
  (deleted_blocks, d3) ← Blocks.delete_above conn ancestor.block_number d2
  d4 ← Checkpoint.upsert conn ancestor.block_number ancestor.node_hash d3
  d5 ← ReorgLog.mark_completed conn log_id now d4
  _ ← send conn commit
  ok (
    record {
      log_id = log_id;
      depth = depth;
      deleted_blocks = deleted_blocks;
      restored_cells = restored_cells;
      ancestor_height = ancestor.block_number;
    },
    d5,
  )

unfoldable pub rollback_to :
    Connection
    → ℕ
    → Ancestor
    → ℕ
    → Bytes
    → Database
    → Result ReorgError (RollbackOutcome × Database)
rollback_to conn now ancestor previous_tip indexed_hash d0 =
    map_err db (rollback_tx conn now ancestor previous_tip indexed_hash d0)

-- What is broadcast on `cellora:reorg`, less the wall clock.
pub record ReorgEvent : Type 0 where
  pub ancestor_block_number : ℕ
  pub ancestor_hash : Bytes
  pub depth : ℕ
