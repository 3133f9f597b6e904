-- ===== src/Indexer/Poller/Undo.antt =====
-- Indexing blocks above height `a`, and rolling back to heights from `a` on, changes nothing that a
-- rollback to `a` keeps: so the rollback undoes all of it.
use mathlib.Core.Path.{subst}
use cellora.Prelude.{
  ℕ, inl, ◌<◌, ◌≤◌, ◌≡◌, refl, sym, ◌∙◌, some, List, [], ◌∷◌, map, Bytes, ok, All, select, leb,
  lt→leb_false,
}
use cellora.Db.Rows.{BlockRow, TransactionRow, CellRow, StoredCell, ConsumedCellRef}
use cellora.Db.Schema.{Database, Connection}
use cellora.Db.Cells.{stored}
use cellora.Indexer.Chain.{BlockView}
use cellora.Indexer.Parser.{Libraries, ParsedBlock, parse_block}
use cellora.Indexer.Parser.Rows.{
  RowsOfBlock, TransactionAt, CellAt, SpendAt, parse_block-RowsOfBlock,
}
use cellora.Indexer.Reorg.{Ancestor, RollbackOutcome, rollback_tx}
use cellora.Indexer.Reorg.Rollback.{rollback_tx-RolledBack}
use cellora.Indexer.Reorg.Survivors.{
  Survive, surviving_cells, surviving_cells-mark, surviving_cells_idem, select-select,
  NoDoubleSpend, Unspent, Below, Below-Survive,
}
use cellora.Indexer.Poller.{index_tx}
use cellora.Indexer.Poller.Indexing.{push_all, indexed_db, index_tx-eq}

-- `d'` is `d` but for rows that a rollback to `a` deletes, and spends that it reverts.
pub record SameUpTo (a : ℕ) (d d' : Database) : Type 0 where
  pub blocks :
      select (λ (b : BlockRow). leb b.number a) d'.blocks
      ≡ select (λ (b : BlockRow). leb b.number a) d.blocks
  pub transactions :
      select (λ (t : TransactionRow). leb t.block_number a) d'.transactions
      ≡ select (λ (t : TransactionRow). leb t.block_number a) d.transactions
  pub cells : surviving_cells a d'.cells ≡ surviving_cells a d.cells

push_transactions :
    (a n : ℕ) (rows xs : List TransactionRow)
    → a < n
    → All (TransactionAt n) rows
    → select (λ (t : TransactionRow). leb t.block_number a) (push_all rows xs)
      ≡ select (λ (t : TransactionRow). leb t.block_number a) xs
unfolding push_all
push_transactions a n [] xs h at = refl
push_transactions a n (r ∷ rows) xs h at =
    push_transactions a n rows (r ∷ xs) h at.1 ∙ (unfold select in rw (at.0, lt→leb_false n a h))

push_cells :
    (a n : ℕ) (rows : List CellRow) (xs : List StoredCell)
    → a < n
    → All (CellAt n) rows
    → surviving_cells a (push_all (map stored rows) xs) ≡ surviving_cells a xs
unfolding push_all
push_cells a n [] xs h at = refl
push_cells a n (r ∷ rows) xs h at =
    push_cells a n rows (stored r ∷ xs) h at.1
    ∙ (unfold surviving_cells stored in rw (at.0, lt→leb_false n a h))

Unspent-stored : (a : ℕ) (r : CellRow) → Unspent a (stored r)
unfolding stored
Unspent-stored a r = inl refl

NoDoubleSpend-push :
    (a : ℕ) (rs : List ConsumedCellRef) (rows : List CellRow) (xs : List StoredCell)
    → NoDoubleSpend a rs xs
    → NoDoubleSpend a rs (push_all (map stored rows) xs)
unfolding push_all
NoDoubleSpend-push a rs [] xs h = h
NoDoubleSpend-push a rs (r ∷ rows) xs h =
    NoDoubleSpend-push a rs rows (stored r ∷ xs) (λ _ _. Unspent-stored a r, h)

spends_above :
    (a n : ℕ) (rs : List ConsumedCellRef)
    → a < n
    → All (SpendAt n) rs
    → All (λ (r : ConsumedCellRef). a < r.consumed_at_block_number) rs
spends_above a n [] h at = tt
spends_above a n (r ∷ rs) h at = (rw at.0.at h, spends_above a n rs h at.1)

indexed-SameUpTo :
    (a : ℕ) (view : BlockView) (p : ParsedBlock) (d : Database)
    → RowsOfBlock view p
    → a < view.number
    → NoDoubleSpend a p.consumed d.cells
    → SameUpTo a d (indexed_db p d)
indexed-SameUpTo a view p d v h once = record {
  blocks = unfold select in rw (v.number, lt→leb_false view.number a h);
  transactions = push_transactions a view.number p.transactions d.transactions h v.transactions;
  cells =
      surviving_cells-mark a p.consumed _ (spends_above a view.number p.consumed h v.consumed)
        (NoDoubleSpend-push a p.consumed p.cells d.cells once)
      ∙ push_cells a view.number p.cells d.cells h v.cells;
}

SameUpTo-trans : {a : ℕ} {d e f : Database} → SameUpTo a d e → SameUpTo a e f → SameUpTo a d f
SameUpTo-trans v w = record {
  blocks = w.blocks ∙ v.blocks;
  transactions = w.transactions ∙ v.transactions;
  cells = w.cells ∙ v.cells;
}

Survive-SameUpTo : {a x : ℕ} {d e : Database} → a ≤ x → Survive x d e → SameUpTo a d e
Survive-SameUpTo {a} {x} {d} h v = record {
  blocks = rw (← v.blocks) (select-select (λ (b : BlockRow). b.number) a x d.blocks h);
  transactions =
      rw (← v.transactions)
        (select-select (λ (t : TransactionRow). t.block_number) a x d.transactions h);
  cells = rw (← v.cells) (surviving_cells_idem a x d.cells h);
}

-- Database `d'` is reached from `d` by committed transactions of the indexer that stay above `a`:
-- blocks numbered above `a` that spend nothing that was spent up to `a` already, and rollbacks to
-- heights from `a` on.
pub data Grown (a : ℕ) (d : Database) : Database → Type 0 where
  here : Grown a d d
  index :
      {e f : Database} (conn : Connection) (lib : Libraries) (view : BlockView) (p : ParsedBlock)
      → Grown a d e
      → parse_block lib view ≡ ok p
      → a < view.number
      → NoDoubleSpend a p.consumed e.cells
      → index_tx conn p e ≡ ok f
      → Grown a d f
  roll :
      {e f : Database} (conn : Connection) (now : ℕ) (x : Ancestor) (tip : ℕ) (hash : Bytes)
      (o : RollbackOutcome)
      → Grown a d e
      → a ≤ x.block_number
      → rollback_tx conn now x tip hash e ≡ ok (o, f)
      → Grown a d f

Grown-SameUpTo : {a : ℕ} {d e : Database} → Grown a d e → SameUpTo a d e
Grown-SameUpTo here = record { blocks = refl; transactions = refl; cells = refl }
Grown-SameUpTo {a} {d} (index {e} {f} conn lib view p g ep h once et) =
    SameUpTo-trans (Grown-SameUpTo g) (
      subst (SameUpTo a e) (sym (index_tx-eq conn p e f et))
        (indexed-SameUpTo a view p e (parse_block-RowsOfBlock lib view p ep) h once))
Grown-SameUpTo {a} {d} (roll {e} {f} conn now x tip hash o g h et) =
    SameUpTo-trans (Grown-SameUpTo g)
      (Survive-SameUpTo h (rollback_tx-RolledBack conn now x tip hash e o f et).survive)

-- The blocks, transactions and cells of `e` are those of `d`, spends included.
pub record SameTables (d e : Database) : Type 0 where
  pub blocks : e.blocks ≡ d.blocks
  pub transactions : e.transactions ≡ d.transactions
  pub cells : e.cells ≡ d.cells

-- A rollback to `a` undoes every transaction since the tables had nothing above `a`: it restores
-- their blocks, transactions and cells exactly, spends included, and moves the checkpoint to the
-- ancestor.
pub rollback_tx-undoes :
    (conn : Connection) (now : ℕ) (x : Ancestor) (tip : ℕ) (hash : Bytes) (d e f : Database)
    (o : RollbackOutcome)
    → Below x.block_number d
    → Grown x.block_number d e
    → rollback_tx conn now x tip hash e ≡ ok (o, f)
    → SameTables d f
      × (f.indexer_state
          ≡ some (record { last_indexed_block = x.block_number; last_indexed_hash = x.node_hash }))
rollback_tx-undoes conn now x tip hash d e f o low g et =
    let r = rollback_tx-RolledBack conn now x tip hash e o f et in
    let s = Grown-SameUpTo g in
    let b = Below-Survive low in
    (
      record {
        blocks = sym r.survive.blocks ∙ s.blocks ∙ b.blocks;
        transactions = sym r.survive.transactions ∙ s.transactions ∙ b.transactions;
        cells = sym r.survive.cells ∙ s.cells ∙ b.cells;
      },
      r.checkpoint,
    )
