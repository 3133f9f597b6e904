-- ===== src/Indexer/Tests.antt =====
-- The indexer on a small chain: block 1 spends the cell of block 0, and is then replaced by a fork.
use cellora.Prelude.{
  ℕ, inl, zero, suc, ◌+◌, ◌≤◌, ◌≡◌, refl, true, Option, none, some, List, [], ◌∷◌, Bytes, bytes_eq,
  codes, ok, arith, select, any,
}
use cellora.Prelude.Int.{pos}
use cellora.Db.Rows.{BlockRow, as_i16}
use cellora.Db.Schema.{Database, empty, healthy}
use cellora.Db.Blocks
use cellora.Db.Transactions
use cellora.Db.Cells
use cellora.Db.Checkpoint
use cellora.Db.ReorgLog
use cellora.Indexer.Chain.{Script, CellInput, TransactionView, BlockView, Node}
use cellora.Indexer.Parser
use cellora.Indexer.Parser.{Libraries, ParsedBlock, parse_block}
use cellora.Indexer.Parser.View.{Contents}
use cellora.Indexer.Parser.Contents.{parse_block-Contents}
use cellora.Indexer.Reorg
use cellora.Indexer.Reorg.{Ancestor, find_common_ancestor, rollback_tx, RollbackOutcome}
use cellora.Indexer.Reorg.Walk.{IsCommonAncestor, find_common_ancestor-IsCommonAncestor}
use cellora.Indexer.Reorg.Search.{Answers, Ending, find_common_ancestor-Ending}
use cellora.Indexer.Reorg.Survivors.{Below, NoDoubleSpend}
use cellora.Indexer.Poller
use cellora.Indexer.Poller.{
  Config, Surroundings, World, Poller, Metrics, index_tx, run, turn, start,
}
use cellora.Indexer.Poller.Undo.{Grown, index, here, SameTables, rollback_tx-undoes}
use cellora.Indexer.Poller.Sync.{Honest}
use cellora.Indexer.Poller.NoGap.{InSync, run-InSync}
use cellora.Indexer.Poller.Delays.{after_failures, next_delay-doubles}
use cellora.Indexer.Poller.Depth.{rollback_tx-depth}

abbrev lib : Libraries
lib = record { calc_script_hash = λ s. s.args; to_value = some; decimal = some }

abbrev lock : Script
lock = record { code_hash = 7 ∷ []; hash_type = codes "type"; args = 8 ∷ [] }

abbrev tx : Bytes → List CellInput → TransactionView
tx hash inputs = record {
  hash = hash;
  version = 0;
  cell_deps = [];
  header_deps = [];
  witnesses = [];
  inputs = inputs;
  outputs = record { capacity = 61; lock = lock; type_script = none } ∷ [];
  outputs_data = [] ∷ [];
}

abbrev view : ℕ → Bytes → Bytes → TransactionView → BlockView
view number hash parent t = record {
  number = number;
  hash = hash;
  parent_hash = parent;
  timestamp = 5;
  epoch = 0;
  nonce = 1;
  dao = [];
  proposals_len = 0;
  uncles_len = 0;
  transactions = t ∷ [];
}

abbrev cellbase : CellInput
cellbase = record { previous_tx_hash = 0 ∷ 0 ∷ []; previous_index = 4294967295 }

abbrev spend : CellInput
spend = record { previous_tx_hash = 20 ∷ []; previous_index = 0 }

abbrev genesis : BlockView
genesis = view 0 (10 ∷ []) [] (tx (20 ∷ []) (cellbase ∷ []))

abbrev block_1 : BlockView
block_1 = view 1 (11 ∷ []) (10 ∷ []) (tx (21 ∷ []) (spend ∷ []))

abbrev fork_1 : BlockView
fork_1 = view 1 (12 ∷ []) (10 ∷ []) (tx (22 ∷ []) (cellbase ∷ []))

abbrev fork_2 : BlockView
fork_2 = view 2 (13 ∷ []) (12 ∷ []) (tx (23 ∷ []) (spend ∷ []))

abbrev node_a : Node
node_a zero = ok (some genesis)
node_a (suc zero) = ok (some block_1)
node_a _ = ok none

abbrev node_b : Node
node_b zero = ok (some genesis)
node_b (suc zero) = ok (some fork_1)
node_b (suc (suc zero)) = ok (some fork_2)
node_b _ = ok none

node_a-Honest : Honest node_a
node_a-Honest = record { number = at }
  where
    at : (n : ℕ) (b : BlockView) → node_a n ≡ ok (some b) → b.number ≡ n
    at zero b e = ground arith
    at (suc zero) b e = ground arith
    at (suc (suc n)) b e = ground arith

node_b-Honest : Honest node_b
node_b-Honest = record { number = at }
  where
    at : (n : ℕ) (b : BlockView) → node_b n ≡ ok (some b) → b.number ≡ n
    at zero b e = ground arith
    at (suc zero) b e = ground arith
    at (suc (suc zero)) b e = ground arith
    at (suc (suc (suc n))) b e = ground arith

abbrev config : Config
config = record {
  poll_interval_ms = 2000;
  indexer_start_block = 0;
  indexer_reorg_target_depth = 12;
  indexer_reorg_max_depth = 100;
  redis = true;
}

abbrev on : Node → Surroundings
on node = record { node = node; conn = healthy; lib = lib; now = 9 }

abbrev metrics : Metrics
metrics = record {
  latest_block = 0;
  blocks_indexed_total = 0;
  reorg_total = 0;
  reorg_oversized_total = 0;
  reorg_depth = [];
}

abbrev poller : Poller
poller = record {
  world = record { database = empty; metrics = metrics; published = [] };
  next_block = 0;
  backoff = record { current = 1000 };
  slept = 0;
}

abbrev rounds : List Surroundings
rounds = on node_a ∷ on node_a ∷ on node_b ∷ on node_b ∷ on node_b ∷ []

run-InSync_example : InSync 0 (run config rounds poller)
run-InSync_example =
    run-InSync 0 config rounds poller
      (node_a-Honest, (node_a-Honest, (node_b-Honest, (node_b-Honest, (node_b-Honest, tt)))))
      (record { chained = record { linked = tt; checkpoint = refl }; next = refl })

-- Opens the code of a whole round, for evaluation.
code : Unit {0}
unfolding run Poller.turn Poller.settle Poller.step Poller.step_block Poller.check_parent
    Poller.handle_reorg Poller.roll_back Poller.after_rollback Poller.index_block Poller.publish
    Poller.index_tx Poller.is_inconsistent_node Poller.fresh Poller.observe_block_indexed
    Poller.observe_reorg Poller.set_latest_block Reorg.find_common_ancestor Reorg.walk_back
    Reorg.agree Reorg.same_hash Reorg.rollback_to Reorg.rollback_tx Blocks.insert Blocks.clashes
    Blocks.hash_at Blocks.row_at Blocks.delete_above Blocks.cascade Transactions.insert
    Transactions.insert_batch Cells.insert Cells.insert_batch Cells.stored Cells.mark
    Cells.refers_to Cells.mark_consumed Cells.restore_consumed_above Cells.restore
    Cells.consumed_above Checkpoint.upsert ReorgLog.insert ReorgLog.mark_completed ReorgLog.complete
    Parser.parse_block Parser.parse_transactions Parser.parse_outputs Parser.parse_output
    Parser.parse_inputs Parser.consumed_ref Parser.is_null Parser.transaction_row
    Parser.type_columns Parser.encode_hash_type Parser.to_i64 as_i16 bytes_eq select any
code = tt

-- The third round meets the fork: node B, asked for height 2, names another parent. Block 1 is rolled
-- back, and the two blocks of the fork are indexed.
follows_fork : (run config rounds poller).next_block ≡ 3
unfolding code
follows_fork = refl

fork_counted : (run config rounds poller).world.metrics.reorg_depth ≡ 1 ∷ []
unfolding code
fork_counted = refl

parsed_genesis : (p : ParsedBlock) × (parse_block lib genesis ≡ ok p)
unfolding code
parsed_genesis = (_, refl)

parsed_1 : (p : ParsedBlock) × (parse_block lib block_1 ≡ ok p)
unfolding code
parsed_1 = (_, refl)

database_0 : (d : Database) × (index_tx healthy parsed_genesis.0 empty ≡ ok d)
unfolding code parsed_genesis
database_0 = (_, refl)

database_1 : (d : Database) × (index_tx healthy parsed_1.0 database_0.0 ≡ ok d)
unfolding code database_0 parsed_1
database_1 = (_, refl)

parse_block-Contents_example : Contents lib block_1 parsed_1.0
parse_block-Contents_example = parse_block-Contents lib block_1 parsed_1.0 parsed_1.1

abbrev fork_point : Ancestor
fork_point = record { block_number = 0; node_hash = 10 ∷ [] }

walk_finds :
    find_common_ancestor node_b (pos 1) (λ h. Blocks.hash_at healthy h database_1.0) ≡ ok fork_point
unfolding code database_1
walk_finds = refl

find_common_ancestor-IsCommonAncestor_example :
    IsCommonAncestor node_b (λ h. Blocks.hash_at healthy h database_1.0) 1 fork_point
find_common_ancestor-IsCommonAncestor_example =
    find_common_ancestor-IsCommonAncestor node_b (λ h. Blocks.hash_at healthy h database_1.0) 1
      fork_point walk_finds

both_answer : Answers node_b (λ h. Blocks.hash_at healthy h database_1.0) 1
both_answer = record { node_at = node; db_at = database }
  where
    node : (h : ℕ) → h ≤ 1 → (b : BlockView) × (node_b h ≡ ok (some b))
    node zero le = (genesis, refl)
    node (suc zero) le = (fork_1, refl)
    node (suc (suc h)) le = absurd (omega arith)

    database : (h : ℕ) → h ≤ 1 → (o : Option Bytes) × (Blocks.hash_at healthy h database_1.0 ≡ ok o)
    database h le = unfold Blocks.hash_at in (_, refl)

find_common_ancestor-Ending_example :
    Ending node_b
      (λ h. Blocks.hash_at healthy h database_1.0)
      1
      (find_common_ancestor node_b (pos 1) (λ h. Blocks.hash_at healthy h database_1.0))
find_common_ancestor-Ending_example =
    find_common_ancestor-Ending node_b (λ h. Blocks.hash_at healthy h database_1.0) 1 both_answer

rolled_back :
    (r : RollbackOutcome × Database) × (rollback_tx healthy 9 fork_point 1 (11 ∷ []) database_1.0
      ≡ ok (r.0, r.1))
unfolding code database_1
rolled_back = (_, refl)

database_0-Below : Below 0 database_0.0
unfolding code database_0
database_0-Below = record {
  blocks = (omega arith, tt);
  transactions = (omega arith, tt);
  cells = ((omega arith, λ n e. absurd cc), tt);
}

unspent_genesis : NoDoubleSpend 0 parsed_1.0.consumed database_0.0.cells
unfolding code database_0 parsed_1
unspent_genesis = (λ _ _. inl refl, tt)

first_growth : Grown 0 database_0.0 database_1.0
unfolding code
first_growth =
    index healthy lib block_1 parsed_1.0 here parsed_1.1 (omega arith) unspent_genesis database_1.1

rollback_tx-undoes_example :
    SameTables database_0.0 rolled_back.0.1
    × (rolled_back.0.1.indexer_state
        ≡ some (record { last_indexed_block = 0; last_indexed_hash = 10 ∷ [] }))
rollback_tx-undoes_example =
    rollback_tx-undoes healthy 9 fork_point 1 (11 ∷ []) database_0.0 database_1.0 rolled_back.0.1
      rolled_back.0.0 database_0-Below first_growth rolled_back.1

next_delay-doubles_example : (Poller.next_delay (after_failures 7 Poller.fresh)).0 ≡ 30000
next_delay-doubles_example = next_delay-doubles 7

abbrev row_of : ℕ → Bytes → Bytes → BlockRow
row_of number hash parent = record parsed_1.0.block {
  number = number;
  hash = hash;
  parent_hash = parent;
}

blocks_1 : database_1.0.blocks ≡ row_of 1 (11 ∷ []) (10 ∷ []) ∷ row_of 0 (10 ∷ []) [] ∷ []
unfolding code database_1 parsed_1
blocks_1 = refl

rollback_tx-depth_example :
    (rolled_back.0.0.depth ≡ rolled_back.0.0.deleted_blocks)
    × (rolled_back.0.0.deleted_blocks + 0 ≡ 1)
rollback_tx-depth_example =
    rollback_tx-depth node_b healthy 9 fork_point (11 ∷ []) (row_of 1 (11 ∷ []) (10 ∷ []))
      (row_of 0 (10 ∷ []) [] ∷ []) database_1.0 rolled_back.0.1 rolled_back.0.0 blocks_1
      ((refl, refl), (tt, tt)) walk_finds rolled_back.1 (omega arith)
