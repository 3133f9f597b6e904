-- ===== src/Indexer/Parser/Contents.antt =====
-- The rows of a parsed block against the view that it was parsed from, column by column.
use mathlib.Core.Option
use mathlib.Core.Path.{subst}
use cellora.Prelude.{
  ℕ, suc, ◌≡◌, refl, sym, ap, ◌∙◌, not, Bool-cases, inl, inr, Option, none, some, List, [], ◌∷◌,
  ◌++◌, map, Bytes, bytes_eq, bytes_eq_sound, codes, ok, ok_or, All, any, select, ◌==◌, Ensures,
  Ensures-bind, Ensures-ok, ok_or-eq-ok,
}
use cellora.Db.Rows.{HashType, TransactionRow, CellRow}
use cellora.Indexer.Chain.{Script, CellOutput, CellInput, TransactionView, BlockView}
use cellora.Indexer.Parser.{
  Libraries, nonce_parse, ParsedBlock, Rest, TypeColumns, is_null, to_i64, encode_hash_type,
  type_columns, parse_output, parse_outputs, parse_inputs, consumed_ref, transaction_row,
  parse_transactions, parse_block,
}
use cellora.Indexer.Parser.Rows.{All-append, to_i64-eq}
use cellora.Indexer.Parser.View.{
  enumerate, zip, concat_map, name_of, script_of, source_of, source_at, sources, Hashed,
  spends_cell, spend_at, spends, columns_of, columns_at, Contents,
}

encode_hash_type-name_of :
    (s : Bytes) → Ensures (λ (h : HashType). name_of h ≡ s) (encode_hash_type s)
unfolding encode_hash_type
encode_hash_type-name_of s = elim (Bool-cases (bytes_eq s (codes "data"))) [
  | inl a ↦ rw a (sym (bytes_eq_sound s (codes "data") a))
  | inr a ↦ elim (Bool-cases (bytes_eq s (codes "type"))) [
    | inl b ↦ rw (a, b) (sym (bytes_eq_sound s (codes "type") b))
    | inr b ↦ elim (Bool-cases (bytes_eq s (codes "data1"))) [
      | inl c ↦ rw (a, b, c) (sym (bytes_eq_sound s (codes "data1") c))
      | inr c ↦ elim (Bool-cases (bytes_eq s (codes "data2"))) [
        | inl d ↦ rw (a, b, c, d) (sym (bytes_eq_sound s (codes "data2") d))
        | inr d ↦ rw (a, b, c, d) tt
      ]
    ]
  ]
]

hash_type_name : (s : Bytes) (h : HashType) → encode_hash_type s ≡ ok h → name_of h ≡ s
hash_type_name s h e =
    Ensures-ok (λ (k : HashType). name_of k ≡ s) (encode_hash_type s) h (encode_hash_type-name_of s)
      e

abbrev TypeOf : Libraries → Option Script → TypeColumns → Type 0
TypeOf lib o t =
    (script_of t.code_hash t.hash_type t.args ≡ o) × (t.hash ≡ Option.map lib.calc_script_hash o)

type_columns-TypeOf :
    (lib : Libraries) (o : Option Script) → Ensures (TypeOf lib o) (type_columns lib o)
unfolding type_columns
type_columns-TypeOf lib none = (refl, refl)
type_columns-TypeOf lib (some script) =
    Ensures-bind (TypeOf lib (some script)) (encode_hash_type script.hash_type) _
      λ h e. (rw (hash_type_name script.hash_type h e), refl)

abbrev CellFrom : Libraries → Bytes → ℕ → CellOutput → Bytes → CellRow → Type 0
CellFrom lib tx_hash i output content c =
    (source_of c ≡ source_at tx_hash (i, (output, content))) × Hashed lib c

parse_output-CellFrom :
    (lib : Libraries) (tx_hash : Bytes) (n i : ℕ) (output : CellOutput) (content : Bytes)
    → Ensures (CellFrom lib tx_hash i output content) (parse_output lib tx_hash n i output content)
unfolding parse_output
parse_output-CellFrom lib tx_hash n i output content =
    let P : CellRow → Type 0 = CellFrom lib tx_hash i output content in
    Ensures-bind P (to_i64 output.capacity) _ λ capacity ec.
      Ensures-bind P (type_columns lib output.type_script) _ λ t et.
        Ensures-bind P (encode_hash_type output.lock.hash_type) _ λ h eh.
          let same_capacity = (to_i64-eq output.capacity ec).0 in
          let same_type =
            Ensures-ok (TypeOf lib output.type_script) (type_columns lib output.type_script) t
              (type_columns-TypeOf lib output.type_script) et in
          let same_name = hash_type_name output.lock.hash_type h eh in
          (
            rw (same_capacity, same_name, same_type.0),
            (rw same_name, same_type.1 ∙ ap (Option.map lib.calc_script_hash) (sym same_type.0)),
          )

-- The cells of a transaction, from an index on.
abbrev CellsFrom : Libraries → Bytes → ℕ → List CellOutput → List Bytes → List CellRow → Type 0
CellsFrom lib tx_hash i outputs contents rows =
    (map source_of rows ≡ map (source_at tx_hash) (enumerate i (zip outputs contents)))
    × All (Hashed lib) rows

parse_outputs-CellsFrom :
    (lib : Libraries) (tx_hash : Bytes) (n i : ℕ) (outputs : List CellOutput)
    (contents : List Bytes)
    → Ensures
        (CellsFrom lib tx_hash i outputs contents)
        (parse_outputs lib tx_hash n i outputs contents)
unfolding parse_outputs
parse_outputs-CellsFrom lib tx_hash n i [] contents = (refl, tt)
parse_outputs-CellsFrom lib tx_hash n i (output ∷ outputs) [] = (refl, tt)
parse_outputs-CellsFrom lib tx_hash n i (output ∷ outputs) (content ∷ contents) =
    let P : List CellRow → Type 0 =
      CellsFrom lib tx_hash i (output ∷ outputs) (content ∷ contents) in
    Ensures-bind P (parse_output lib tx_hash n i output content) _ λ row er.
      Ensures-bind P (parse_outputs lib tx_hash n (suc i) outputs contents) _ λ rows es.
        let this =
          Ensures-ok (CellFrom lib tx_hash i output content)
            (parse_output lib tx_hash n i output content) row
            (parse_output-CellFrom lib tx_hash n i output content) er in
        let others =
          Ensures-ok (CellsFrom lib tx_hash (suc i) outputs contents)
            (parse_outputs lib tx_hash n (suc i) outputs contents) rows
            (parse_outputs-CellsFrom lib tx_hash n (suc i) outputs contents) es in
        (rw (this.0, others.0), (this.1, others.1))

is_null-any : (bs : Bytes) → any (λ b. not (b == 0)) bs ≡ not (is_null bs)
unfolding is_null any
is_null-any [] = refl
is_null-any (b ∷ bs) = elim (Bool-cases (b == 0)) [ inl e ↦ rw (e, is_null-any bs) | inr e ↦ rw e ]

parse_inputs-spends :
    (tx_hash : Bytes) (n i : ℕ) (inputs : List CellInput)
    → parse_inputs tx_hash n i inputs
      ≡ map (spend_at tx_hash n) (select spends_cell (enumerate i inputs))
unfolding parse_inputs consumed_ref select
parse_inputs-spends tx_hash n i [] = refl
parse_inputs-spends tx_hash n i (input ∷ inputs) =
    elim (Bool-cases (is_null input.previous_tx_hash)) [
      | inl e ↦
          rw (is_null-any input.previous_tx_hash, e, parse_inputs-spends tx_hash n (suc i) inputs)
      | inr e ↦
          rw (is_null-any input.previous_tx_hash, e, parse_inputs-spends tx_hash n (suc i) inputs)
    ]

transaction_row-columns :
    (lib : Libraries) (n i : ℕ) (tx : TransactionView)
    → Ensures
        (λ (row : TransactionRow). columns_of row ≡ columns_at lib n (i, tx))
        (transaction_row lib n i tx)
unfolding transaction_row
transaction_row-columns lib n i tx =
    let P : TransactionRow → Type 0 = λ row. columns_of row ≡ columns_at lib n (i, tx) in
    Ensures-bind P (ok_or (lib.to_value tx.cell_deps) _) _ λ a ea.
      Ensures-bind P (ok_or (lib.to_value tx.header_deps) _) _ λ b eb.
        Ensures-bind P (ok_or (lib.to_value tx.witnesses) _) _
          λ c ec. rw (ok_or-eq-ok _ _ ea, ok_or-eq-ok _ _ eb, ok_or-eq-ok _ _ ec)

-- What the transactions of block `n` leave in the three tables.
pub record ContentsFrom (lib : Libraries) (n i : ℕ) (txs : List TransactionView) (rest : Rest)
    : Type 0 where
  pub transactions : map columns_of rest.transactions ≡ map (columns_at lib n) (enumerate i txs)
  pub cells : map source_of rest.cells ≡ concat_map sources txs
  pub hashed : All (Hashed lib) rest.cells
  pub consumed : rest.consumed ≡ concat_map (spends n) txs

map-append : {A B : Type 0} (f : A → B) (xs ys : List A) → map f (xs ++ ys) ≡ map f xs ++ map f ys
map-append f [] ys = refl
map-append f (x ∷ xs) ys = ap (λ zs. f x ∷ zs) (map-append f xs ys)

parse_transactions-ContentsFrom :
    (lib : Libraries) (n i : ℕ) (txs : List TransactionView)
    → Ensures (ContentsFrom lib n i txs) (parse_transactions lib n i txs)
unfolding parse_transactions
parse_transactions-ContentsFrom lib n i [] = record {
  transactions = refl;
  cells = refl;
  hashed = tt;
  consumed = refl;
}
parse_transactions-ContentsFrom lib n i (tx ∷ txs) =
    let P : Rest → Type 0 = ContentsFrom lib n i (tx ∷ txs) in
    Ensures-bind P (transaction_row lib n i tx) _ λ row er.
      Ensures-bind P (parse_outputs lib tx.hash n 0 tx.outputs tx.outputs_data) _ λ cells ec.
        Ensures-bind P (parse_transactions lib n (suc i) txs) _ λ rest et.
          let first =
            Ensures-ok (λ (r : TransactionRow). columns_of r ≡ columns_at lib n (i, tx))
              (transaction_row lib n i tx) row (transaction_row-columns lib n i tx) er in
          let own =
            Ensures-ok (CellsFrom lib tx.hash 0 tx.outputs tx.outputs_data)
              (parse_outputs lib tx.hash n 0 tx.outputs tx.outputs_data) cells
              (parse_outputs-CellsFrom lib tx.hash n 0 tx.outputs tx.outputs_data) ec in
          let ih =
            Ensures-ok (ContentsFrom lib n (suc i) txs) (parse_transactions lib n (suc i) txs) rest
              (parse_transactions-ContentsFrom lib n (suc i) txs) et in
          record {
            transactions = rw (first, ih.transactions);
            cells = rw (map-append source_of cells rest.cells, own.0, ih.cells);
            hashed = All-append (Hashed lib) cells rest.cells own.1 ih.hashed;
            consumed = rw (parse_inputs-spends tx.hash n 0 tx.inputs, ih.consumed);
          }

contents_at :
    (lib : Libraries) (view : BlockView) (n : ℕ) (rest : Rest)
    → n ≡ view.number
    → parse_transactions lib n 0 view.transactions ≡ ok rest
    → ContentsFrom lib view.number 0 view.transactions rest
contents_at lib view n rest e et =
    subst (λ k. ContentsFrom lib k 0 view.transactions rest) e
      (Ensures-ok (ContentsFrom lib n 0 view.transactions)
        (parse_transactions lib n 0 view.transactions) rest
        (parse_transactions-ContentsFrom lib n 0 view.transactions) et)

assembled_rows :
    (lib : Libraries) (view : BlockView) → Ensures (Contents lib view) (parse_block lib view)
unfolding parse_block
assembled_rows lib view =
    let P : ParsedBlock → Type 0 = Contents lib view in
    Ensures-bind P (to_i64 view.number) _ λ n en.
      Ensures-bind P (ok_or (lib.decimal view.nonce) nonce_parse) _ λ nonce eo.
        Ensures-bind P (to_i64 view.timestamp) _ λ timestamp es.
          Ensures-bind P (to_i64 view.epoch) _ λ epoch ee.
            Ensures-bind P (parse_transactions lib n 0 view.transactions) _ λ rest et.
              let v = contents_at lib view n rest (to_i64-eq view.number en).0 et in
              record {
                number = (to_i64-eq view.number en).0;
                fits = (to_i64-eq view.number en).1;
                hash = refl;
                parent_hash = refl;
                timestamp = (to_i64-eq view.timestamp es).0;
                epoch = (to_i64-eq view.epoch ee).0;
                transactions_count = refl;
                proposals_count = refl;
                uncles_count = refl;
                nonce = ok_or-eq-ok _ _ eo;
                dao = refl;
                transactions = v.transactions;
                cells = v.cells;
                hashed = v.hashed;
                consumed = v.consumed;
              }

-- What the parser makes of a block, where it succeeds: the block's own columns; a row for each
-- transaction; a cell for each output that has data, from which the output can be read back, with the
-- hashes of its scripts; and a spend for each input whose previous transaction is not the null hash;
-- each in the order of the view, with its transaction and its index, and nothing else. Indexes and
-- counts are cut at the largest 32-bit number.
pub parse_block-Contents :
    (lib : Libraries) (view : BlockView) (p : ParsedBlock)
    → parse_block lib view ≡ ok p
    → Contents lib view p
parse_block-Contents lib view p h =
    Ensures-ok (Contents lib view) (parse_block lib view) p (assembled_rows lib view) h
