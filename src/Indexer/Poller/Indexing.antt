-- ===== src/Indexer/Poller/Indexing.antt =====
-- What the transaction that indexes a block leaves, and that it changes nothing a rollback to a
-- lower height keeps.
use cellora.Prelude.{
  ℕ, ◌≡◌, refl, sym, ap, some, List, [], ◌∷◌, map, Bytes, ok, arith, Ensures, Ensures-bind,
  Ensures-ok,
}
use mathlib.Core.Path.{subst}
use cellora.Db.Rows.{BlockRow, TransactionRow, CellRow, StoredCell, ConsumedCellRef}
use cellora.Db.Schema.{Database, Connection, send, begin, commit, update_consumed}
use cellora.Db.Blocks
use cellora.Db.Transactions
use cellora.Db.Cells
use cellora.Db.Cells.{stored, mark, refers_to, restore, release}
use cellora.Db.Checkpoint
use cellora.Indexer.Parser.{ParsedBlock}
use cellora.Indexer.Reorg.Survivors.{mark_all}
use cellora.Indexer.Poller.{index_tx}

-- rows in the order in which a batch leaves them: the last inserted first
unfoldable pub push_all {ℓ} : {A : Type ℓ} → List A → List A → List A
push_all [] xs = xs
push_all (r ∷ rs) xs = push_all rs (r ∷ xs)

insert_transaction :
    (conn : Connection) (row : TransactionRow) (d e : Database)
    → Transactions.insert conn row d ≡ ok e
    → e ≡ record d { transactions = row ∷ d.transactions }
unfolding Transactions.insert
insert_transaction conn row d e h = ground arith

insert_transactions :
    (conn : Connection) (rows : List TransactionRow) (d : Database)
    → Ensures
        (λ (e : Database). e ≡ record d { transactions = push_all rows d.transactions })
        (Transactions.insert_batch conn rows d)
unfolding Transactions.insert_batch push_all
insert_transactions conn [] d = refl
insert_transactions conn (r ∷ rows) d =
    Ensures-bind
      (λ (e : Database). e ≡ record d { transactions = push_all rows (r ∷ d.transactions) })
      (Transactions.insert conn r d) _
      λ d' e.
        subst
          (λ (x : Database).
            Ensures
              (λ (y : Database). y ≡ record d { transactions = push_all rows (r ∷ d.transactions) })
              (Transactions.insert_batch conn rows x))
          (sym (insert_transaction conn r d d' e))
          (insert_transactions conn rows (record d { transactions = r ∷ d.transactions }))

insert_cell :
    (conn : Connection) (row : CellRow) (d e : Database)
    → Cells.insert conn row d ≡ ok e
    → e ≡ record d { cells = stored row ∷ d.cells }
unfolding Cells.insert
insert_cell conn row d e h = ground arith

insert_cells :
    (conn : Connection) (rows : List CellRow) (d : Database)
    → Ensures
        (λ (e : Database). e ≡ record d { cells = push_all (map stored rows) d.cells })
        (Cells.insert_batch conn rows d)
unfolding Cells.insert_batch push_all
insert_cells conn [] d = refl
insert_cells conn (r ∷ rows) d =
    Ensures-bind
      (λ (e : Database). e ≡ record d { cells = push_all (map stored rows) (stored r ∷ d.cells) })
      (Cells.insert conn r d) _
      λ d' e.
        subst
          (λ (x : Database).
            Ensures
              (λ (y : Database).
                y ≡ record d { cells = push_all (map stored rows) (stored r ∷ d.cells) })
              (Cells.insert_batch conn rows x))
          (sym (insert_cell conn r d d' e))
          (insert_cells conn rows (record d { cells = stored r ∷ d.cells }))

map-map-mark :
    (r : ConsumedCellRef) (rs : List ConsumedCellRef) (cs : List StoredCell)
    → map (mark_all rs) (map (mark r) cs) ≡ map (mark_all (r ∷ rs)) cs
unfolding mark_all
map-map-mark r rs [] = refl
map-map-mark r rs (c ∷ cs) = ap (λ t. mark_all rs (mark r c) ∷ t) (map-map-mark r rs cs)

map-mark_nil : (cs : List StoredCell) → cs ≡ map (mark_all []) cs
unfolding mark_all
map-mark_nil [] = refl
map-mark_nil (c ∷ cs) = ap (λ t. c ∷ t) (map-mark_nil cs)

mark_cells :
    (conn : Connection) (rs : List ConsumedCellRef) (d : Database)
    → Ensures
        (λ (e : Database). e ≡ record d { cells = map (mark_all rs) d.cells })
        (Cells.mark_consumed conn rs d)
unfolding Cells.mark_consumed
mark_cells conn [] d = ap (λ (cs : List StoredCell). record d { cells = cs }) (map-mark_nil d.cells)
mark_cells conn (r ∷ rs) d =
    Ensures-bind (λ (e : Database). e ≡ record d { cells = map (mark_all (r ∷ rs)) d.cells })
      (send conn (update_consumed r.tx_hash r.output_index)) _
      λ _ _.
        subst
          (λ (cs : List StoredCell).
            Ensures (λ (e : Database). e ≡ record d { cells = cs })
              (Cells.mark_consumed conn rs (record d { cells = map (mark r) d.cells })))
          (map-map-mark r rs d.cells)
          (mark_cells conn rs (record d { cells = map (mark r) d.cells }))

insert_block_lem :
    (conn : Connection) (row : BlockRow) (d e : Database)
    → Blocks.insert conn row d ≡ ok e
    → e ≡ record d { blocks = row ∷ d.blocks }
unfolding Blocks.insert
insert_block_lem conn row d e h = ground arith

upsert_lem :
    (conn : Connection) (n : ℕ) (hash : Bytes) (d e : Database)
    → Checkpoint.upsert conn n hash d ≡ ok e
    → e ≡ record d {
      indexer_state = some (record { last_indexed_block = n; last_indexed_hash = hash });
    }
unfolding Checkpoint.upsert
upsert_lem conn n hash d e h = ground arith

-- The database after the block `p` was indexed on top of `d`.
abbrev pub indexed_db : ParsedBlock → Database → Database
indexed_db p d = record d {
  blocks = p.block ∷ d.blocks;
  transactions = push_all p.transactions d.transactions;
  cells = map (mark_all p.consumed) (push_all (map stored p.cells) d.cells);
  indexer_state =
      some (record { last_indexed_block = p.block.number; last_indexed_hash = p.block.hash });
}

index_tx-Ensures :
    (conn : Connection) (p : ParsedBlock) (d : Database)
    → Ensures (λ (e : Database). e ≡ indexed_db p d) (index_tx conn p d)
unfolding index_tx
index_tx-Ensures conn p d =
    let P : Database → Type 0 = λ e. e ≡ indexed_db p d in
    Ensures-bind P (send conn begin) _ λ _ _.
      Ensures-bind P (Blocks.insert conn p.block d) _ λ d1 e1.
        Ensures-bind P (Transactions.insert_batch conn p.transactions d1) _ λ d2 e2.
          Ensures-bind P (Cells.insert_batch conn p.cells d2) _ λ d3 e3.
            Ensures-bind P (Cells.mark_consumed conn p.consumed d3) _ λ d4 e4.
              Ensures-bind P (Checkpoint.upsert conn p.block.number p.block.hash d4) _ λ d5 e5.
                Ensures-bind P (send conn commit) _ λ _ _. cc (
                  insert_block_lem conn p.block d d1 e1,
                  Ensures-ok
                      (λ (e : Database).
                        e ≡ record d1 { transactions = push_all p.transactions d1.transactions })
                      (Transactions.insert_batch conn p.transactions d1) d2
                      (insert_transactions conn p.transactions d1) e2,
                  Ensures-ok
                      (λ (e : Database).
                        e ≡ record d2 { cells = push_all (map stored p.cells) d2.cells })
                      (Cells.insert_batch conn p.cells d2) d3 (insert_cells conn p.cells d2) e3,
                  Ensures-ok
                      (λ (e : Database).
                        e ≡ record d3 { cells = map (mark_all p.consumed) d3.cells })
                      (Cells.mark_consumed conn p.consumed d3) d4 (mark_cells conn p.consumed d3)
                      e4,
                  upsert_lem conn p.block.number p.block.hash d4 d5 e5,
                )

pub index_tx-eq :
    (conn : Connection) (p : ParsedBlock) (d e : Database)
    → index_tx conn p d ≡ ok e
    → e ≡ indexed_db p d
index_tx-eq conn p d e h =
    Ensures-ok (λ (x : Database). x ≡ indexed_db p d) (index_tx conn p d) e
      (index_tx-Ensures conn p d) h
