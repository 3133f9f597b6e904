-- ===== src/Indexer/Poller.antt =====
-- crates/indexer/src/poller.rs, and the counters of crates/indexer/src/metrics.rs that it keeps.
pub mod Indexing
pub mod Undo
pub mod Linked
pub mod Sync
pub mod NoGap
pub mod Delays
pub mod Depth
use cellora.Prelude.{
  ℕ, zero, suc, ◌+◌, ◌-◌, ◌*◌, min, Bool, true, false, not, ◌&&◌, Option, none, some, List, [], ◌∷◌,
  ◌++◌, Bytes, bytes_eq, Result, ok, err, map_err, ◌>>=◌, ltb, leb, if◌then◌else◌, map,
}
use cellora.Prelude.Int.{pos, u64_max, i64_max, clamp_i64, saturating_suc}
use cellora.Db.Rows.{BlockRow, CellRow, CheckpointRow}
use cellora.Db.Schema.{Database, DbError, DbResult, Connection, send, begin, commit}
use cellora.Db.Blocks
use cellora.Db.Transactions
use cellora.Db.Cells
use cellora.Db.Checkpoint
use cellora.Indexer.Chain.{BlockView, CommonError, Node}
use cellora.Indexer.Parser.{Libraries, ParseError, ParsedBlock, parse_block}
use cellora.Indexer.Reorg.{
  ReorgError, Ancestor, RollbackOutcome, ReorgEvent, find_common_ancestor, rollback_to,
}

pub data PollerError : Type 0 where
  rpc : CommonError → PollerError
  db : DbError → PollerError
  parse : ℕ → ParseError → PollerError
  reorg : ReorgError → PollerError

pub record Config : Type 0 where
  pub poll_interval_ms : ℕ
  pub indexer_start_block : ℕ
  pub indexer_reorg_target_depth : ℕ
  pub indexer_reorg_max_depth : ℕ
  -- whether `with_redis` attached a connection
  pub redis : Bool

-- Histograms are the list of their observations; the durations are not kept.
pub record Metrics : Type 0 where
  pub latest_block : ℕ
  pub blocks_indexed_total : ℕ
  pub reorg_total : ℕ
  pub reorg_oversized_total : ℕ
  pub reorg_depth : List ℕ

unfoldable pub observe_block_indexed : ℕ → Metrics → Metrics
observe_block_indexed height m = record m {
  latest_block = height;
  blocks_indexed_total = m.blocks_indexed_total + 1;
}

unfoldable pub set_latest_block : ℕ → Metrics → Metrics
set_latest_block height m = record m { latest_block = height }

unfoldable pub observe_reorg : ℕ → Bool → Metrics → Metrics
observe_reorg depth oversized m = record m {
  reorg_total = m.reorg_total + 1;
  reorg_oversized_total =
      if oversized then m.reorg_oversized_total + 1 else m.reorg_oversized_total;
  reorg_depth = depth ∷ m.reorg_depth;
}

-- What is handed to the best-effort publishers, newest last.
pub data Event : Type 0 where
  block_mined : BlockRow → Event
  cell_created : CellRow → Event
  reorged : ReorgEvent → Event

-- The state that a step changes.
pub record World : Type 0 where
  pub database : Database
  pub metrics : Metrics
  pub published : List Event

-- What a step meets: the node, the database server, the libraries and the clock.
pub record Surroundings : Type 0 where
  pub node : Node
  pub conn : Connection
  pub lib : Libraries
  pub now : ℕ

pub data StepOutcome : Type 0 where
  indexed waiting_for_tip inconsistent_node : StepOutcome
  reorg_handled : ℕ → StepOutcome

unfoldable pub publish : Config → List Event → World → World
publish config events w = if config.redis then record w { published = w.published ++ events } else w

-- one transaction for the block, its rows, its spends and the checkpoint
unfoldable pub index_tx : Connection → ParsedBlock → Database → DbResult Database
index_tx conn parsed d0 = do
  _ ← send conn begin
  d1 ← Blocks.insert conn parsed.block d0
  d2 ← Transactions.insert_batch conn parsed.transactions d1
  d3 ← Cells.insert_batch conn parsed.cells d2
  d4 ← Cells.mark_consumed conn parsed.consumed d3
  d5 ← Checkpoint.upsert conn parsed.block.number parsed.block.hash d4
  _ ← send conn commit
  ok d5

unfoldable pub index_block :
    Surroundings → Config → ℕ → BlockView → World → Result PollerError (StepOutcome × World)
index_block env config n block w = do
  parsed ← map_err (parse n) (parse_block env.lib block)
  database ← map_err db (index_tx env.conn parsed w.database)
  let w' =
      publish config (block_mined parsed.block ∷ map cell_created parsed.cells)
        (record w { database = database })
  ok (indexed, record w' { metrics = observe_block_indexed parsed.block.number w'.metrics })

unfoldable pub is_inconsistent_node : ℕ → ℕ → Bool
is_inconsistent_node suspect_height ancestor_height = leb suspect_height ancestor_height

-- what `handle_reorg` does once the rollback is committed
unfoldable pub after_rollback : Config → Ancestor → RollbackOutcome → World → StepOutcome × World
after_rollback config ancestor outcome w =
    let oversized = ltb config.indexer_reorg_max_depth outcome.depth in
    let m =
      set_latest_block outcome.ancestor_height (observe_reorg outcome.depth oversized w.metrics) in
    let event : ReorgEvent = record {
      ancestor_block_number = ancestor.block_number;
      ancestor_hash = ancestor.node_hash;
      depth = outcome.depth;
    } in
    (
      reorg_handled outcome.ancestor_height,
      publish config (reorged event ∷ []) (record w { metrics = m }),
    )

-- the part of `handle_reorg` below its depth-0 guard
unfoldable pub roll_back :
    Surroundings → Config → ℕ → Bytes → World → Ancestor → Result PollerError (StepOutcome × World)
roll_back env config suspect_height indexed_hash w ancestor = do
  (outcome, database) ←
      map_err reorg (rollback_to env.conn env.now ancestor suspect_height indexed_hash w.database)
  ok (after_rollback config ancestor outcome (record w { database = database }))

unfoldable pub handle_reorg :
    Surroundings → Config → ℕ → Bytes → World → Result PollerError (StepOutcome × World)
handle_reorg env config suspect_height indexed_hash w = do
  ancestor ← map_err reorg (
      find_common_ancestor env.node (pos suspect_height)
        (λ h. Blocks.hash_at env.conn h w.database))
  if is_inconsistent_node suspect_height ancestor.block_number
      then ok (inconsistent_node, w)
      else roll_back env config suspect_height indexed_hash w ancestor

-- the detection: the new block's parent against the hash stored below it
unfoldable pub check_parent :
    Surroundings
    → Config
    → ℕ
    → BlockView
    → Option Bytes
    → World
    → Result PollerError (StepOutcome × World)
check_parent env config n block none w = index_block env config n block w
check_parent env config n block (some stored) w =
    if bytes_eq block.parent_hash stored
    then index_block env config n block w
    else handle_reorg env config (clamp_i64 n - 1) stored w

unfoldable pub step_block :
    Surroundings → Config → ℕ → BlockView → World → Result PollerError (StepOutcome × World)
step_block env config zero block w = index_block env config 0 block w
step_block env config (suc n) block w = do
  stored ← map_err db (Blocks.hash_at env.conn (clamp_i64 (suc n) - 1) w.database)
  check_parent env config (suc n) block stored w

unfoldable pub step : Surroundings → Config → ℕ → World → Result PollerError (StepOutcome × World)
step env config n w = do
  answer ← map_err rpc (env.node n)
  elim answer [ none ↦ ok (waiting_for_tip, w) | some block ↦ step_block env config n block w ]

-- Milliseconds.
pub record Backoff : Type 0 where
  pub current : ℕ

unfoldable pub fresh : Backoff
fresh = record { current = 1000 }

unfoldable pub next_delay : Backoff → ℕ × Backoff
next_delay b = (b.current, record b { current = min (b.current * 2) 30000 })

-- The variables of `run` between two rounds of its loop, and how long the last round slept.
pub record Poller : Type 0 where
  pub world : World
  pub next_block : ℕ
  pub backoff : Backoff
  pub slept : ℕ

-- resume point after `checkpoint::read`
unfoldable pub resume_at : Config → Option CheckpointRow → ℕ
resume_at config none = config.indexer_start_block
resume_at config (some cp) = saturating_suc i64_max cp.last_indexed_block

unfoldable pub start : Config → Connection → World → Result PollerError Poller
unfolding fresh
start config conn w = do
  checkpoint ← map_err db (Checkpoint.read conn w.database)
  ok (record { world = w; next_block = resume_at config checkpoint; backoff = fresh; slept = 0 })

unfoldable pub back_off : Poller → Poller
back_off p = let (delay, b) = next_delay p.backoff in record p { backoff = b; slept = delay }

unfoldable pub settle : Config → Poller → StepOutcome → Poller
settle config p indexed = record p {
  next_block = saturating_suc u64_max p.next_block;
  backoff = fresh;
  slept = 0;
}
settle config p (reorg_handled new_tip) = record p {
  next_block = saturating_suc u64_max new_tip;
  backoff = fresh;
  slept = 0;
}
settle config p waiting_for_tip = record p { slept = config.poll_interval_ms }
settle config p inconsistent_node = back_off p

-- One round of the loop. A step that fails leaves the world alone: its transaction is dropped.
unfoldable pub turn : Config → Surroundings → Poller → Poller
turn config env p = elim (step env config p.next_block p.world) [
  | ok (outcome, w) ↦ settle config (record p { world = w }) outcome
  | err e ↦ back_off p
]

-- The rounds until the token is cancelled, each in its own surroundings.
unfoldable pub run : Config → List Surroundings → Poller → Poller
run config [] p = p
run config (env ∷ envs) p = run config envs (turn config env p)
