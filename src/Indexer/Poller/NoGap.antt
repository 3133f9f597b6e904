-- ===== src/Indexer/Poller/NoGap.antt =====
-- Whatever the node, the database server and the parser do in each round, the stored blocks stay one
-- chain and the loop asks for the block above it: no height is skipped.
use cellora.Prelude.{
  ℕ, zero, suc, ◌-◌, ◌≤◌, ◌≡◌, refl, Bool-cases, inl, inr, Option, none, some, List, [], ◌∷◌, Bytes,
  bytes_eq, bytes_eq_sound, arith, All, Result, ok, err, map_err, map_err-eq-ok, Ensures,
  Ensures-bind, Ensures-ok,
}
use cellora.Prelude.Int.{i64_max, clamp_i64}
use cellora.Db.Rows.{BlockRow}
use cellora.Db.Schema.{Database, Connection}
use cellora.Db.Blocks
use cellora.Db.Blocks.{row_at, hash_in}
use cellora.Indexer.Chain.{BlockView}
use cellora.Indexer.Poller.{
  Config, Surroundings, World, Poller, StepOutcome, PollerError, indexed, waiting_for_tip,
  inconsistent_node, reorg_handled, rpc, db, check_parent, step_block, step, settle, back_off, turn,
  run, next_delay,
}
use cellora.Indexer.Poller.Linked.{next_of}
use cellora.Indexer.Poller.Sync.{
  Expects, Honest, asks, Moved, Fits, index_block-Moved, handle_reorg-Moved,
}

-- The stored hash below height `suc m` is the tip's.
stored-Fits :
    (first m : ℕ) (block : BlockView) (bs : List BlockRow)
    → suc m ≡ next_of first bs
    → suc m ≤ i64_max
    → ((hash : Bytes) → hash_in bs (clamp_i64 (suc m) - 1) ≡ some hash → block.parent_hash ≡ hash)
    → Fits (suc m) block bs
stored-Fits first m block [] e bound parent = tt
stored-Fits first m block (c ∷ cs) e bound parent =
    (e, parent c.hash (unfold row_at in ground arith))

check_parent-Moved :
    (first : ℕ) (env : Surroundings) (config : Config) (m : ℕ) (block : BlockView)
    (stored : Option Bytes) (w : World)
    → block.number ≡ suc m
    → Expects first (suc m) w.database
    → stored ≡ hash_in w.database.blocks (clamp_i64 (suc m) - 1)
    → Ensures (Moved first (suc m)) (check_parent env config (suc m) block stored w)
unfolding check_parent
check_parent-Moved first env config m block none w e v es =
    index_block-Moved first env config (suc m) block w e v.chained
      λ bound. stored-Fits first m block w.database.blocks v.next bound (λ hash eh. absurd (cc))
check_parent-Moved first env config m block (some hash) w e v es =
    elim (Bool-cases (bytes_eq block.parent_hash hash)) [
      | inl same ↦ rw same (
          index_block-Moved first env config (suc m) block w e v.chained λ bound.
            stored-Fits first m block w.database.blocks v.next bound λ other eo.
              let p : block.parent_hash ≡ hash = bytes_eq_sound block.parent_hash hash same in cc)
      | inr differ ↦ rw differ (
          handle_reorg-Moved first env config (suc m) (clamp_i64 (suc m) - 1) hash w v
            (ground arith))
    ]

hash_at-eq :
    (conn : Connection) (n : ℕ) (d : Database) (o : Option Bytes)
    → Blocks.hash_at conn n d ≡ ok o
    → o ≡ hash_in d.blocks n
unfolding Blocks.hash_at
hash_at-eq conn n d o h = ground arith

step_block-Moved :
    (first : ℕ) (env : Surroundings) (config : Config) (n : ℕ) (block : BlockView) (w : World)
    → block.number ≡ n
    → Expects first n w.database
    → Ensures (Moved first n) (step_block env config n block w)
unfolding step_block
step_block-Moved first env config zero block w e v =
    index_block-Moved first env config 0 block w e v.chained (λ _. bottom w.database.blocks v.next)
  where
    bottom : (bs : List BlockRow) → 0 ≡ next_of first bs → Fits 0 block bs
    bottom [] p = tt
    bottom (c ∷ cs) p = absurd (omega arith)
step_block-Moved first env config (suc m) block w e v =
    Ensures-bind (Moved first (suc m))
      (map_err db (Blocks.hash_at env.conn (clamp_i64 (suc m) - 1) w.database)) _
      λ stored es.
        check_parent-Moved first env config m block stored w e v
          (hash_at-eq env.conn _ w.database stored (map_err-eq-ok db _ es))

-- A step that returns, asked for the height above the stored tip, leaves a chain with its
-- checkpoint, and its outcome tells the height above the new tip.
pub step-Expects :
    (first : ℕ) (env : Surroundings) (config : Config) (n : ℕ) (w : World) (out : StepOutcome)
    (w' : World)
    → Honest env.node
    → Expects first n w.database
    → step env config n w ≡ ok (out, w')
    → Expects first (asks out n) w'.database
step-Expects first env config n w out w' fair v h =
    Ensures-ok (Moved first n) (step env config n w) (out, w') moved h
  where
    answered :
        (o : Option BlockView)
        → env.node n ≡ ok o
        → Ensures (Moved first n) (elim o [
          | none ↦ ok (waiting_for_tip, w)
          | some block ↦ step_block env config n block w
        ])
    answered none e = v
    answered (some block) e = step_block-Moved first env config n block w (fair.number n block e) v

    moved : Ensures (Moved first n) (step env config n w)
    moved =
        unfold step in
        Ensures-bind (Moved first n) (map_err rpc (env.node n)) _
          λ o e. answered o (map_err-eq-ok rpc (env.node n) e)

-- The loop is at the height above the stored tip.
abbrev pub InSync : ℕ → Poller → Type 0
InSync first p = Expects first p.next_block p.world.database

settle-InSync :
    (first : ℕ) (config : Config) (p : Poller) (out : StepOutcome) (w : World)
    → Expects first (asks out p.next_block) w.database
    → InSync first (settle config (record p { world = w }) out)
unfolding settle back_off next_delay
settle-InSync first config p indexed w v = v
settle-InSync first config p (reorg_handled tip) w v = v
settle-InSync first config p waiting_for_tip w v = v
settle-InSync first config p inconsistent_node w v = v

-- Every round of the loop, whether its step returns or fails anywhere, keeps the stored blocks one
-- chain with the checkpoint at its tip, and the loop at the height above it.
pub turn-InSync :
    (first : ℕ) (config : Config) (env : Surroundings) (p : Poller)
    → Honest env.node
    → InSync first p
    → InSync first (turn config env p)
unfolding turn
turn-InSync first config env p fair v = settled (step env config p.next_block p.world) refl
  where
    settled :
        (r : Result PollerError (StepOutcome × World))
        → step env config p.next_block p.world ≡ r
        → InSync first (elim r [
          | ok (outcome, w) ↦ settle config (record p { world = w }) outcome
          | err e ↦ back_off p
        ])
    settled (ok (out, w)) e =
        settle-InSync first config p out w
          (step-Expects first env config p.next_block p.world out w fair v e)
    settled (err e) _ = unfold back_off next_delay in v

-- From a state in sync, any number of rounds, whatever the (honest) nodes and servers answer, ends in
-- sync: the stored blocks are a chain without a gap, the checkpoint is its tip, and the block asked
-- for next is the one above the tip.
pub run-InSync :
    (first : ℕ) (config : Config) (envs : List Surroundings) (p : Poller)
    → All (λ (env : Surroundings). Honest env.node) envs
    → InSync first p
    → InSync first (run config envs p)
unfolding run
run-InSync first config [] p fair v = v
run-InSync first config (env ∷ envs) p fair v =
    run-InSync first config envs (turn config env p) fair.1
      (turn-InSync first config env p fair.0 v)
