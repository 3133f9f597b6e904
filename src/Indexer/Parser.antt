-- ===== src/Indexer/Parser.antt =====
-- crates/indexer/src/parser.rs. The libraries it calls are the fields of `Libraries`.
pub mod Rows
pub mod View
pub mod Contents
use cellora.Prelude.{
  ℕ, suc, Bool, true, false, ◌&&◌, Option, none, some, List, [], ◌∷◌, ◌++◌, Bytes, codes, bytes_eq,
  Result, ok, err, ok_or, ◌>>=◌, ◌>>◌, leb, ◌==◌, if◌then◌else◌, length,
}
use cellora.Prelude.Int.{i64_max, clamp_i32}
use cellora.Db.Rows.{
  HashType, data_, type_, data1, data2, BlockRow, TransactionRow, CellRow, ConsumedCellRef,
}
use cellora.Indexer.Chain.{Script, CellOutput, CellInput, TransactionView, BlockView}

pub data ParseError : Type 0 where
  capacity_overflow : ℕ → ParseError
  nonce_parse : ParseError
  unknown_hash_type : Bytes → ParseError
  serialize : Bytes → ParseError

-- `calc_script_hash` of ckb-types, `serde_json::to_value`, and `BigDecimal::from_str` on the
-- decimal digits of a number
pub record Libraries : Type 0 where
  pub calc_script_hash : Script → Bytes
  pub to_value : Bytes → Option Bytes
  pub decimal : ℕ → Option ℕ

pub record ParsedBlock : Type 0 where
  pub block : BlockRow
  pub transactions : List TransactionRow
  pub cells : List CellRow
  pub consumed : List ConsumedCellRef

-- i64::try_from, with the error that the parser makes of a failure
unfoldable pub to_i64 : ℕ → Result ParseError ℕ
to_i64 n = if leb n i64_max then ok n else err (capacity_overflow n)

unfoldable pub encode_hash_type : Bytes → Result ParseError HashType
encode_hash_type s =
    if bytes_eq s (codes "data")
    then ok data_
    else if bytes_eq s (codes "type")
    then ok type_
    else if bytes_eq s (codes "data1")
    then ok data1
    else if bytes_eq s (codes "data2")
    then ok data2
    else err (unknown_hash_type s)

-- the four `type_*` columns of an output
pub record TypeColumns : Type 0 where
  pub code_hash : Option Bytes
  pub hash_type : Option HashType
  pub args : Option Bytes
  pub hash : Option Bytes

unfoldable pub type_columns : Libraries → Option Script → Result ParseError TypeColumns
type_columns lib none = ok (record { code_hash = none; hash_type = none; args = none; hash = none })
type_columns lib (some script) = do
  hash_type ← encode_hash_type script.hash_type
  ok (record {
    code_hash = some script.code_hash;
    hash_type = some hash_type;
    args = some script.args;
    hash = some (lib.calc_script_hash script);
  })

unfoldable pub parse_output :
    Libraries → Bytes → ℕ → ℕ → CellOutput → Bytes → Result ParseError CellRow
parse_output lib tx_hash block_number index output content = do
  capacity ← to_i64 output.capacity
  columns ← type_columns lib output.type_script
  lock_hash_type ← encode_hash_type output.lock.hash_type
  ok (record {
    tx_hash = tx_hash;
    output_index = clamp_i32 index;
    block_number = block_number;
    capacity_shannons = capacity;
    lock_code_hash = output.lock.code_hash;
    lock_hash_type = lock_hash_type;
    lock_args = output.lock.args;
    lock_hash = lib.calc_script_hash output.lock;
    type_code_hash = columns.code_hash;
    type_hash_type = columns.hash_type;
    type_args = columns.args;
    type_hash = columns.hash;
    content = content;
  })

-- the loop over `outputs.iter().zip(outputs_data.iter()).enumerate()`, from `index`
unfoldable pub parse_outputs :
    Libraries → Bytes → ℕ → ℕ → List CellOutput → List Bytes → Result ParseError (List CellRow)
parse_outputs lib tx_hash block_number index [] contents = ok []
parse_outputs lib tx_hash block_number index (output ∷ outputs) [] = ok []
parse_outputs lib tx_hash block_number index (output ∷ outputs) (content ∷ contents) = do
  row ← parse_output lib tx_hash block_number index output content
  rows ← parse_outputs lib tx_hash block_number (suc index) outputs contents
  ok (row ∷ rows)

-- the previous output of a cellbase input is the null reference
unfoldable pub is_null : Bytes → Bool
is_null [] = true
is_null (b ∷ bs) = b == 0 && is_null bs

unfoldable pub consumed_ref : Bytes → ℕ → ℕ → CellInput → ConsumedCellRef
consumed_ref tx_hash block_number index input = record {
  tx_hash = input.previous_tx_hash;
  output_index = clamp_i32 input.previous_index;
  consumed_by_tx_hash = tx_hash;
  consumed_by_input_index = clamp_i32 index;
  consumed_at_block_number = block_number;
}

-- the loop over `inputs.iter().enumerate()`, from `index`
unfoldable pub parse_inputs : Bytes → ℕ → ℕ → List CellInput → List ConsumedCellRef
parse_inputs tx_hash block_number index [] = []
parse_inputs tx_hash block_number index (input ∷ inputs) =
    let rest = parse_inputs tx_hash block_number (suc index) inputs in
    if is_null input.previous_tx_hash
    then rest
    else consumed_ref tx_hash block_number index input ∷ rest

unfoldable pub transaction_row :
    Libraries → ℕ → ℕ → TransactionView → Result ParseError TransactionRow
transaction_row lib block_number index tx = do
  cell_deps ← ok_or (lib.to_value tx.cell_deps) (serialize (codes "cell_deps"))
  header_deps ← ok_or (lib.to_value tx.header_deps) (serialize (codes "header_deps"))
  witnesses ← ok_or (lib.to_value tx.witnesses) (serialize (codes "witnesses"))
  ok (record {
    hash = tx.hash;
    block_number = block_number;
    tx_index = clamp_i32 index;
    version = clamp_i32 tx.version;
    cell_deps = cell_deps;
    header_deps = header_deps;
    witnesses = witnesses;
    inputs_count = clamp_i32 (length tx.inputs);
    outputs_count = clamp_i32 (length tx.outputs);
  })

-- What the loop over the transactions has pushed.
pub record Rest : Type 0 where
  pub transactions : List TransactionRow
  pub cells : List CellRow
  pub consumed : List ConsumedCellRef

-- the loop over `view.transactions.iter().enumerate()`, from `index`
unfoldable pub parse_transactions :
    Libraries → ℕ → ℕ → List TransactionView → Result ParseError Rest
parse_transactions lib block_number index [] =
    ok (record { transactions = []; cells = []; consumed = [] })
parse_transactions lib block_number index (tx ∷ txs) = do
  row ← transaction_row lib block_number index tx
  cells ← parse_outputs lib tx.hash block_number 0 tx.outputs tx.outputs_data
  rest ← parse_transactions lib block_number (suc index) txs
  ok (record {
    transactions = row ∷ rest.transactions;
    cells = cells ++ rest.cells;
    consumed = parse_inputs tx.hash block_number 0 tx.inputs ++ rest.consumed;
  })

unfoldable pub parse_block : Libraries → BlockView → Result ParseError ParsedBlock
parse_block lib view = do
  block_number ← to_i64 view.number
  nonce ← ok_or (lib.decimal view.nonce) nonce_parse
  timestamp ← to_i64 view.timestamp
  epoch ← to_i64 view.epoch
  rest ← parse_transactions lib block_number 0 view.transactions
  ok (record {
    block = record {
      number = block_number;
      hash = view.hash;
      parent_hash = view.parent_hash;
      timestamp_ms = timestamp;
      epoch = epoch;
      transactions_count = clamp_i32 (length view.transactions);
      proposals_count = clamp_i32 view.proposals_len;
      uncles_count = clamp_i32 view.uncles_len;
      nonce = nonce;
      dao = view.dao;
    };
    transactions = rest.transactions;
    cells = rest.cells;
    consumed = rest.consumed;
  })
