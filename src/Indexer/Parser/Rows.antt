-- ===== src/Indexer/Parser/Rows.antt =====
-- Every row of a parsed block belongs to that block.
use cellora.Prelude.{
  ℕ, suc, ◌≤◌, ◌≡◌, refl, false, List, [], ◌∷◌, ◌++◌, map, Bytes, ok, arith, All, Bool-cases, ok_or,
  Ensures, Ensures-bind, Ensures-ok, inl, inr,
}
use mathlib.Core.Path.{subst}
use cellora.Prelude.Int.{i64_max}
use cellora.Db.Rows.{TransactionRow, CellRow, ConsumedCellRef}
use cellora.Indexer.Chain.{CellOutput, CellInput, TransactionView, BlockView}
use cellora.Indexer.Parser.{
  Libraries, nonce_parse, ParsedBlock, Rest, is_null, to_i64, parse_output, parse_outputs,
  parse_inputs, consumed_ref, transaction_row, parse_transactions, parse_block,
}

pub All-append {ℓ κ} :
    {A : Type ℓ} (P : A → Type κ) (xs ys : List A) → All P xs → All P ys → All P (xs ++ ys)
All-append P [] ys hx hy = hy
All-append P (x ∷ xs) ys hx hy = (hx.0, All-append P xs ys hx.1 hy)

-- A row of a table that carries the number of the block that it came with.
abbrev pub TransactionAt : ℕ → TransactionRow → Type 0
TransactionAt n t = t.block_number ≡ n

abbrev pub CellAt : ℕ → CellRow → Type 0
CellAt n c = c.block_number ≡ n

-- A spend points at a real cell, never at the null reference of a cellbase input.
pub record SpendAt (n : ℕ) (r : ConsumedCellRef) : Type 0 where
  pub at : r.consumed_at_block_number ≡ n
  pub not_null : is_null r.tx_hash ≡ false

parse_output-CellAt :
    (lib : Libraries) (tx_hash : Bytes) (n index : ℕ) (output : CellOutput) (content : Bytes)
    {row : CellRow}
    → parse_output lib tx_hash n index output content ≡ ok row
    → CellAt n row
unfolding parse_output
parse_output-CellAt lib tx_hash n index output content h = ground arith

parse_outputs-CellAt :
    (lib : Libraries) (tx_hash : Bytes) (n index : ℕ) (outputs : List CellOutput)
    (contents : List Bytes) (rows : List CellRow)
    → parse_outputs lib tx_hash n index outputs contents ≡ ok rows
    → All (CellAt n) rows
unfolding parse_outputs
parse_outputs-CellAt lib tx_hash n index outputs contents [] h = tt
parse_outputs-CellAt lib tx_hash n index [] contents (row ∷ rows) h = cc
parse_outputs-CellAt lib tx_hash n index (output ∷ outputs) [] (row ∷ rows) h = cc
parse_outputs-CellAt lib tx_hash n index (output ∷ outputs) (content ∷ contents) (row ∷ rows) h =
    ground (
      arith,
      parse_output-CellAt lib tx_hash n index output content {row = row},
      parse_outputs-CellAt lib tx_hash n (suc index) outputs contents rows,
    )

parse_inputs-SpendAt :
    (tx_hash : Bytes) (n index : ℕ) (inputs : List CellInput)
    → All (SpendAt n) (parse_inputs tx_hash n index inputs)
unfolding parse_inputs consumed_ref
parse_inputs-SpendAt tx_hash n index [] = tt
parse_inputs-SpendAt tx_hash n index (input ∷ inputs) =
    elim (Bool-cases (is_null input.previous_tx_hash)) [
      | inl e ↦ rw e (parse_inputs-SpendAt tx_hash n (suc index) inputs)
      | inr e ↦
          rw e
            (record { at = refl; not_null = e }, parse_inputs-SpendAt tx_hash n (suc index) inputs)
    ]

-- What the loop over the transactions of block `n` guarantees of the rows it pushed.
pub record RowsOf (n : ℕ) (views : List TransactionView) (rest : Rest) : Type 0 where
  pub transactions : All (TransactionAt n) rest.transactions
  pub cells : All (CellAt n) rest.cells
  pub consumed : All (SpendAt n) rest.consumed
  pub hashes :
      map (λ (t : TransactionRow). t.hash) rest.transactions
      ≡ map (λ (v : TransactionView). v.hash) views

transaction_row-at :
    (lib : Libraries) (n index : ℕ) (tx : TransactionView) (row : TransactionRow)
    → transaction_row lib n index tx ≡ ok row
    → (row.block_number ≡ n) × (row.hash ≡ tx.hash)
unfolding transaction_row
transaction_row-at lib n index tx row h = ground arith

RowsOf-cons :
    (lib : Libraries) (n index : ℕ) (tx : TransactionView) (txs : List TransactionView)
    (row : TransactionRow) (cells : List CellRow) (rest : Rest)
    → transaction_row lib n index tx ≡ ok row
    → parse_outputs lib tx.hash n 0 tx.outputs tx.outputs_data ≡ ok cells
    → RowsOf n txs rest
    → RowsOf n (tx ∷ txs) (record {
      transactions = row ∷ rest.transactions;
      cells = cells ++ rest.cells;
      consumed = parse_inputs tx.hash n 0 tx.inputs ++ rest.consumed;
    })
RowsOf-cons lib n index tx txs row cells rest er ec v =
    let at = transaction_row-at lib n index tx row er in
    record {
      transactions = (at.0, v.transactions);
      cells =
          All-append (CellAt n) cells rest.cells
            (parse_outputs-CellAt lib tx.hash n 0 tx.outputs tx.outputs_data cells ec) v.cells;
      consumed =
          All-append (SpendAt n) _ rest.consumed (parse_inputs-SpendAt tx.hash n 0 tx.inputs)
            v.consumed;
      hashes = cc (at.1, v.hashes);
    }

parse_transactions-RowsOf :
    (lib : Libraries) (n index : ℕ) (txs : List TransactionView)
    → Ensures (RowsOf n txs) (parse_transactions lib n index txs)
unfolding parse_transactions
parse_transactions-RowsOf lib n index [] = record {
  transactions = tt;
  cells = tt;
  consumed = tt;
  hashes = refl;
}
parse_transactions-RowsOf lib n index (tx ∷ txs) =
    let P : Rest → Type 0 = RowsOf n (tx ∷ txs) in
    let ih = parse_transactions-RowsOf lib n (suc index) txs in
    Ensures-bind P (transaction_row lib n index tx) _ λ row er.
      Ensures-bind P (parse_outputs lib tx.hash n 0 tx.outputs tx.outputs_data) _ λ cells ec.
        Ensures-bind P (parse_transactions lib n (suc index) txs) _ λ rest et.
          RowsOf-cons lib n index tx txs row cells rest er ec
            (Ensures-ok (RowsOf n txs) (parse_transactions lib n (suc index) txs) rest ih et)

-- The rows of a parsed block, against the view that it was parsed from.
pub record RowsOfBlock (view : BlockView) (p : ParsedBlock) : Type 0 where
  pub number : p.block.number ≡ view.number
  pub bound : view.number ≤ i64_max
  pub hash : p.block.hash ≡ view.hash
  pub parent_hash : p.block.parent_hash ≡ view.parent_hash
  pub transactions : All (TransactionAt view.number) p.transactions
  pub cells : All (CellAt view.number) p.cells
  pub consumed : All (SpendAt view.number) p.consumed
  pub hashes :
      map (λ (t : TransactionRow). t.hash) p.transactions
      ≡ map (λ (v : TransactionView). v.hash) view.transactions

pub to_i64-eq : (n : ℕ) {m : ℕ} → to_i64 n ≡ ok m → (m ≡ n) × (n ≤ i64_max)
unfolding to_i64
to_i64-eq n h = ground arith

rows_at :
    (lib : Libraries) (view : BlockView) (n : ℕ) (rest : Rest)
    → n ≡ view.number
    → parse_transactions lib n 0 view.transactions ≡ ok rest
    → RowsOf view.number view.transactions rest
rows_at lib view n rest e et =
    subst (λ k. RowsOf k view.transactions rest) e
      (Ensures-ok (RowsOf n view.transactions) (parse_transactions lib n 0 view.transactions) rest
        (parse_transactions-RowsOf lib n 0 view.transactions) et)

parse_block-rows :
    (lib : Libraries) (view : BlockView) → Ensures (RowsOfBlock view) (parse_block lib view)
unfolding parse_block
parse_block-rows lib view =
    let P : ParsedBlock → Type 0 = RowsOfBlock view in
    Ensures-bind P (to_i64 view.number) _ λ n en.
      Ensures-bind P (ok_or (lib.decimal view.nonce) nonce_parse) _ λ nonce _.
        Ensures-bind P (to_i64 view.timestamp) _ λ timestamp _.
          Ensures-bind P (to_i64 view.epoch) _ λ epoch _.
            Ensures-bind P (parse_transactions lib n 0 view.transactions) _ λ rest et.
              let v = rows_at lib view n rest (to_i64-eq view.number en).0 et in
              record {
                number = (to_i64-eq view.number en).0;
                bound = (to_i64-eq view.number en).1;
                hash = refl;
                parent_hash = refl;
                transactions = v.transactions;
                cells = v.cells;
                consumed = v.consumed;
                hashes = v.hashes;
              }

-- A block that parses, and the numbers of its rows.
pub parse_block-RowsOfBlock :
    (lib : Libraries) (view : BlockView) (p : ParsedBlock)
    → parse_block lib view ≡ ok p
    → RowsOfBlock view p
parse_block-RowsOfBlock lib view p h =
    Ensures-ok (RowsOfBlock view) (parse_block lib view) p (parse_block-rows lib view) h
