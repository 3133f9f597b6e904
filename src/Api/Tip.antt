-- ===== src/Api/Tip.antt =====
-- crates/api/src/tip.rs. Clocks are milliseconds; the background task is a list of refreshes.
pub mod Freshness
use cellora.Prelude.{
  ℕ, ◌-◌, Bool, true, false, ◌&&◌, Option, none, some, List, [], ◌∷◌, Result, ok, err, ltb, leb,
  if◌then◌else◌,
}
use cellora.Prelude.Int.{ℤ, pos, negsuc, i64_max}
use mathlib.Core.Option
use cellora.Db.Rows.{CheckpointRow}
use cellora.Db.Schema.{Database, Connection}
use cellora.Db.Checkpoint
use cellora.Indexer.Chain.{CommonError}

abbrev pub stale_after : ℕ
stale_after = 5000

pub record TipSnapshot : Type 0 where
  pub indexer_tip : Option ℕ
  pub node_tip : Option ℕ
  pub observed_at : ℕ
  pub observed_monotonic : ℕ

-- `checked_sub(STALE_AFTER * 2)`, or the time itself where the clock is younger than that
unfoldable pub empty : ℕ → TipSnapshot
empty monotonic = record {
  indexer_tip = none;
  node_tip = none;
  observed_at = 0;
  observed_monotonic = if leb 10000 monotonic then monotonic - 10000 else monotonic;
}

unfoldable pub is_stale : ℕ → TipSnapshot → Bool
is_stale monotonic snapshot = ltb stale_after (monotonic - snapshot.observed_monotonic)

-- The difference of two numbers below 2 ^ 63, which no `saturating_sub` has to cut.
unfoldable pub saturating_sub : ℕ → ℕ → ℤ
saturating_sub n m = if leb m n then pos (n - m) else negsuc (m - n - 1)

unfoldable pub lag_blocks : TipSnapshot → Option ℤ
lag_blocks snapshot = elim snapshot.indexer_tip [
  | none ↦ none
  | some indexer ↦ elim snapshot.node_tip [
    | none ↦ none
    | some node ↦ if leb node i64_max then some (saturating_sub node indexer) else none
  ]
]

-- What one refresh meets: the node's answer, the server, and the two clocks.
pub record Reading : Type 0 where
  pub tip_block_number : Result CommonError ℕ
  pub conn : Connection
  pub database : Database
  pub wall : ℕ
  pub monotonic : ℕ

-- the value and whether it was read in this cycle
unfoldable pub read_indexer_tip : Reading → TipSnapshot → Option ℕ × Bool
read_indexer_tip r previous = elim (Checkpoint.read r.conn r.database) [
  | ok row ↦ (Option.map (λ (c : CheckpointRow). c.last_indexed_block) row, true)
  | err e ↦ (previous.indexer_tip, false)
]

unfoldable pub read_node_tip : Reading → TipSnapshot → Option ℕ × Bool
read_node_tip r previous = elim r.tip_block_number [
  | ok n ↦ (some n, true)
  | err e ↦ (previous.node_tip, false)
]

unfoldable pub refresh_once : Reading → TipSnapshot → TipSnapshot
refresh_once r previous =
    let (indexer_tip, indexer_ok) = read_indexer_tip r previous in
    let (node_tip, node_ok) = read_node_tip r previous in
    let both = indexer_ok && node_ok in
    record {
      indexer_tip = indexer_tip;
      node_tip = node_tip;
      observed_at = if both then r.wall else previous.observed_at;
      observed_monotonic = if both then r.monotonic else previous.observed_monotonic;
    }

-- the loop of `spawn_refresh_task`, newest refresh first
unfoldable pub refreshes : List Reading → TipSnapshot → TipSnapshot
refreshes [] snapshot = snapshot
refreshes (r ∷ rs) snapshot = refresh_once r (refreshes rs snapshot)
