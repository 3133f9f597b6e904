-- ===== src/Indexer/Poller/Sync.antt =====
-- The stored blocks form one chain, and the checkpoint is its tip: what indexing a block and
-- handling a reorg do to that, whatever the database server and the parser answer.
use mathlib.Core.Path.{subst}
use cellora.Prelude.{
  ℕ, ◌+◌, ◌≤◌, ◌≡◌, refl, sym, ◌∙◌, Bool-cases, inl, inr, some, List, [], ◌∷◌, Bytes, arith, ok,
  map_err, map_err-eq-ok, Ensures, Ensures-bind, Option-cases,
}
use cellora.Prelude.Int.{pos, i64_max, u64_max, saturating_suc}
use cellora.Db.Rows.{BlockRow}
use cellora.Db.Schema.{Database, Connection}
use cellora.Db.Blocks
use cellora.Db.Blocks.{row_at, hash_in}
use cellora.Indexer.Chain.{BlockView, Node}
use cellora.Indexer.Parser.{ParsedBlock, parse_block}
use cellora.Indexer.Parser.Rows.{RowsOfBlock, parse_block-RowsOfBlock}
use cellora.Indexer.Reorg.{
  Ancestor, RollbackOutcome, ReorgError, find_common_ancestor, rollback_to, rollback_tx,
}
use cellora.Indexer.Reorg.Walk.{find_common_ancestor-IsCommonAncestor, stored_hash}
use cellora.Indexer.Reorg.Rollback.{rollback_tx-RolledBack, RolledBack}
use cellora.Indexer.Poller.{
  Event, Config, Surroundings, World, StepOutcome, indexed, waiting_for_tip, inconsistent_node,
  reorg_handled, parse, db, reorg, index_tx, index_block, handle_reorg, roll_back, after_rollback,
  publish, is_inconsistent_node,
}
use cellora.Indexer.Poller.Indexing.{indexed_db, index_tx-eq}
use cellora.Indexer.Poller.Linked.{Follows, Linked, tip_of, next_of, Cut, select-Cut}

-- The database holds one chain, and its checkpoint is the tip of it.
pub record Chained (d : Database) : Type 0 where
  pub linked : Linked d.blocks
  pub checkpoint : d.indexer_state ≡ tip_of d.blocks

-- `n` is the height to ask for: the one above the stored tip, or `first` while nothing is stored.
pub record Expects (first : ℕ) (n : ℕ) (d : Database) : Type 0 where
  pub chained : Chained d
  pub next : n ≡ next_of first d.blocks

-- The node answers a request for height `n` with a block numbered `n`.
pub record Honest (node : Node) : Type 0 where
  pub number : (n : ℕ) (b : BlockView) → node n ≡ ok (some b) → b.number ≡ n

-- The height to ask for after a step that asked for `n`.
abbrev pub asks : StepOutcome → ℕ → ℕ
asks indexed n = saturating_suc u64_max n
asks (reorg_handled tip) n = saturating_suc u64_max tip
asks waiting_for_tip n = n
asks inconsistent_node n = n

abbrev pub Moved : ℕ → ℕ → StepOutcome × World → Type 0
Moved first n (out, w) = Expects first (asks out n) w.database

publish-database :
    (config : Config) (events : List Event) (w : World)
    → (publish config events w).database ≡ w.database
unfolding publish
publish-database config events w = ground arith

-- `block`, asked for at height `n`, goes on top of the stored chain.
abbrev pub Fits : ℕ → BlockView → List BlockRow → Type 0
Fits n block [] = Unit {0}
Fits n block (c ∷ _) = (n ≡ c.number + 1) × (block.parent_hash ≡ c.hash)

indexed-Expects :
    (first n : ℕ) (block : BlockView) (p : ParsedBlock) (d : Database)
    → RowsOfBlock block p
    → block.number ≡ n
    → Chained d
    → Fits n block d.blocks
    → Expects first (saturating_suc u64_max n) (indexed_db p d)
indexed-Expects first n block p d v e c fits = record {
  chained = record { linked = (follows d.blocks fits, c.linked); checkpoint = refl };
  next = ground (arith, v.number, v.bound);
}
  where
    follows : (bs : List BlockRow) → Fits n block bs → Follows p.block bs
    follows [] f = tt
    follows (b ∷ bs) f = (v.number ∙ e ∙ f.0, v.parent_hash ∙ f.1)

pub index_block-Moved :
    (first : ℕ) (env : Surroundings) (config : Config) (n : ℕ) (block : BlockView) (w : World)
    → block.number ≡ n
    → Chained w.database
    → (n ≤ i64_max → Fits n block w.database.blocks)
    → Ensures (Moved first n) (index_block env config n block w)
unfolding index_block
index_block-Moved first env config n block w e c fits =
    let P : StepOutcome × World → Type 0 = Moved first n in
    Ensures-bind P (map_err (parse n) (parse_block env.lib block)) _ λ p e1.
      Ensures-bind P (map_err db (index_tx env.conn p w.database)) _ λ d e2.
        let v = parse_block-RowsOfBlock env.lib block p (map_err-eq-ok (parse n) _ e1) in
        subst (Expects first (saturating_suc u64_max n))
          (sym (index_tx-eq env.conn p w.database d (map_err-eq-ok db _ e2))
            ∙ sym (publish-database config _ (record w { database = d })))
          (indexed-Expects first n block p w.database v e c (fits (rw (← e) v.bound)))

-- A hash that the database returned is that of a stored block.
pub stored_row :
    (conn : Connection) (d : Database) (h : ℕ) (hash : Bytes)
    → stored_hash (λ k. Blocks.hash_at conn k d) h ≡ some hash
    → (r : BlockRow) × (row_at h d.blocks ≡ some r) × (r.hash ≡ hash)
unfolding Blocks.hash_at
stored_row conn d h hash e = elim (Option-cases (row_at h d.blocks)) [
  | inl miss ↦ absurd (ground arith)
  | inr (r, hit) ↦ (r, hit, ground arith)
]

rolled-Expects :
    (first n tip : ℕ) (x : Ancestor) (o : RollbackOutcome) (d e : Database) (r : BlockRow)
    → Chained d
    → x.block_number ≤ i64_max
    → row_at x.block_number d.blocks ≡ some r
    → r.hash ≡ x.node_hash
    → RolledBack x tip d o e
    → Expects first (saturating_suc u64_max o.ancestor_height) e
rolled-Expects first n tip x o d e r c bound hit same v =
    let cut =
      subst (Cut x.block_number r) v.survive.blocks
        (select-Cut x.block_number d.blocks r c.linked hit) in
    record {
      chained = record { linked = cut.linked; checkpoint = v.checkpoint ∙ cc (same, cut.tip) };
      next = let up = cut.next first in ground (arith, v.height);
    }

roll_back-Moved :
    (first : ℕ) (env : Surroundings) (config : Config) (n suspect : ℕ) (hash : Bytes) (w : World)
    (x : Ancestor)
    → Chained w.database
    → suspect ≤ i64_max
    → find_common_ancestor env.node (pos suspect) (λ h. Blocks.hash_at env.conn h w.database) ≡ ok x
    → Ensures (Moved first n) (roll_back env config suspect hash w x)
unfolding roll_back after_rollback rollback_to
roll_back-Moved first env config n suspect hash w x c bound ex =
    let P : StepOutcome × World → Type 0 = Moved first n in
    let a =
      find_common_ancestor-IsCommonAncestor env.node (λ h. Blocks.hash_at env.conn h w.database)
        suspect x ex in
    let (r, hit, same) = stored_row env.conn w.database x.block_number x.node_hash a.agree.stored in
    Ensures-bind P
      (map_err reorg
        (map_err ReorgError.db (rollback_tx env.conn env.now x suspect hash w.database)))
      _
      λ (o, e) er.
        subst (Expects first (saturating_suc u64_max o.ancestor_height))
          (sym (publish-database config _ _))
          (rolled-Expects first n suspect x o w.database e r c (omega (arith, a.within)) hit same (
            rollback_tx-RolledBack env.conn env.now x suspect hash w.database o e
              (map_err-eq-ok ReorgError.db _ (map_err-eq-ok reorg _ er))))

pub handle_reorg-Moved :
    (first : ℕ) (env : Surroundings) (config : Config) (n suspect : ℕ) (hash : Bytes) (w : World)
    → Expects first n w.database
    → suspect ≤ i64_max
    → Ensures (Moved first n) (handle_reorg env config suspect hash w)
unfolding handle_reorg
handle_reorg-Moved first env config n suspect hash w v bound =
    let P : StepOutcome × World → Type 0 = Moved first n in
    Ensures-bind P
      (map_err reorg
        (find_common_ancestor env.node (pos suspect) (λ h. Blocks.hash_at env.conn h w.database)))
      _
      λ x ex. elim (Bool-cases (is_inconsistent_node suspect x.block_number)) [
        | inl e ↦ rw e v
        | inr e ↦ rw e (
            roll_back-Moved first env config n suspect hash w x v.chained bound
              (map_err-eq-ok reorg _ ex))
      ]
