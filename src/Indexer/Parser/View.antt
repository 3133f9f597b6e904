-- ===== src/Indexer/Parser/View.antt =====
-- What the rows of a parsed block are to be, read off the view that it was parsed from.
use mathlib.Core.Option
use cellora.Prelude.{
  ℕ, suc, ◌≤◌, ◌≡◌, Bool, not, Option, none, some, List, [], ◌∷◌, ◌++◌, map, Bytes, codes, All, any,
  select, length, ◌==◌,
}
use cellora.Prelude.Int.{clamp_i32, i64_max}
use cellora.Db.Rows.{HashType, data_, type_, data1, data2, TransactionRow, CellRow, ConsumedCellRef}
use cellora.Indexer.Chain.{Script, CellOutput, CellInput, TransactionView, BlockView}
use cellora.Indexer.Parser.{Libraries, ParsedBlock}

abbrev pub enumerate {ℓ} : {A : Type ℓ} → ℕ → List A → List (ℕ × A)
enumerate n [] = []
enumerate n (x ∷ xs) = (n, x) ∷ enumerate (suc n) xs

abbrev pub zip : List CellOutput → List Bytes → List (CellOutput × Bytes)
zip [] contents = []
zip (o ∷ os) [] = []
zip (o ∷ os) (c ∷ cs) = (o, c) ∷ zip os cs

abbrev pub concat_map {ℓ κ} : {A : Type ℓ} {B : Type κ} → (A → List B) → List A → List B
concat_map f [] = []
concat_map f (x ∷ xs) = f x ++ concat_map f xs

abbrev pub name_of : HashType → Bytes
name_of data_ = codes "data"
name_of type_ = codes "type"
name_of data1 = codes "data1"
name_of data2 = codes "data2"

-- The script that three columns hold.
abbrev pub script_of : Option Bytes → Option HashType → Option Bytes → Option Script
script_of (some code_hash) (some hash_type) (some args) =
    some (record { code_hash = code_hash; hash_type = name_of hash_type; args = args })
script_of (some code_hash) (some hash_type) none = none
script_of (some code_hash) none args = none
script_of none hash_type args = none

-- The output that a row of `cells` holds.
abbrev pub output_of : CellRow → CellOutput
output_of c = record {
  capacity = c.capacity_shannons;
  lock = record {
    code_hash = c.lock_code_hash;
    hash_type = name_of c.lock_hash_type;
    args = c.lock_args;
  };
  type_script = script_of c.type_code_hash c.type_hash_type c.type_args;
}

-- A cell: the transaction and the index of its output, the output, and its data.
pub record CellSource : Type 0 where
  pub tx_hash : Bytes
  pub index : ℕ
  pub output : CellOutput
  pub content : Bytes

abbrev pub source_of : CellRow → CellSource
source_of c = record {
  tx_hash = c.tx_hash;
  index = c.output_index;
  output = output_of c;
  content = c.content;
}

abbrev pub source_at : Bytes → ℕ × (CellOutput × Bytes) → CellSource
source_at tx_hash (i, (output, content)) = record {
  tx_hash = tx_hash;
  index = clamp_i32 i;
  output = output;
  content = content;
}

-- The outputs of a transaction that have data, in their order.
abbrev pub sources : TransactionView → List CellSource
sources tx = map (source_at tx.hash) (enumerate 0 (zip tx.outputs tx.outputs_data))

-- The two script hashes of a row.
abbrev pub Hashed : Libraries → CellRow → Type 0
Hashed lib c =
    (c.lock_hash ≡ lib.calc_script_hash (output_of c).lock)
    × (c.type_hash ≡ Option.map lib.calc_script_hash (output_of c).type_script)

-- An input that spends a cell: its previous output has a hash that is not all zeros, as that of a
-- cellbase input is.
abbrev pub spends_cell : ℕ × CellInput → Bool
spends_cell (i, input) = any (λ b. not (b == 0)) input.previous_tx_hash

abbrev pub spend_at : Bytes → ℕ → ℕ × CellInput → ConsumedCellRef
spend_at tx_hash n (i, input) = record {
  tx_hash = input.previous_tx_hash;
  output_index = clamp_i32 input.previous_index;
  consumed_by_tx_hash = tx_hash;
  consumed_by_input_index = clamp_i32 i;
  consumed_at_block_number = n;
}

-- The spends of a transaction of block `n`, in the order of its inputs.
abbrev pub spends : ℕ → TransactionView → List ConsumedCellRef
spends n tx = map (spend_at tx.hash n) (select spends_cell (enumerate 0 tx.inputs))

-- The columns of a transaction; JSON that the library cannot make is `none`.
pub record TransactionColumns : Type 0 where
  pub hash : Bytes
  pub block_number : ℕ
  pub tx_index : ℕ
  pub version : ℕ
  pub cell_deps : Option Bytes
  pub header_deps : Option Bytes
  pub witnesses : Option Bytes
  pub inputs_count : ℕ
  pub outputs_count : ℕ

abbrev pub columns_of : TransactionRow → TransactionColumns
columns_of t = record {
  hash = t.hash;
  block_number = t.block_number;
  tx_index = t.tx_index;
  version = t.version;
  cell_deps = some t.cell_deps;
  header_deps = some t.header_deps;
  witnesses = some t.witnesses;
  inputs_count = t.inputs_count;
  outputs_count = t.outputs_count;
}

abbrev pub columns_at : Libraries → ℕ → ℕ × TransactionView → TransactionColumns
columns_at lib n (i, tx) = record {
  hash = tx.hash;
  block_number = n;
  tx_index = clamp_i32 i;
  version = clamp_i32 tx.version;
  cell_deps = lib.to_value tx.cell_deps;
  header_deps = lib.to_value tx.header_deps;
  witnesses = lib.to_value tx.witnesses;
  inputs_count = clamp_i32 (length tx.inputs);
  outputs_count = clamp_i32 (length tx.outputs);
}

-- A parsed block against its view: the columns of the block, one row for each transaction, one cell
-- for each output that has data and one spend for each input that spends a cell, all in the order of
-- the view, and the script hashes of the cells.
pub record Contents (lib : Libraries) (view : BlockView) (p : ParsedBlock) : Type 0 where
  pub number : p.block.number ≡ view.number
  pub fits : view.number ≤ i64_max
  pub hash : p.block.hash ≡ view.hash
  pub parent_hash : p.block.parent_hash ≡ view.parent_hash
  pub timestamp : p.block.timestamp_ms ≡ view.timestamp
  pub epoch : p.block.epoch ≡ view.epoch
  pub transactions_count : p.block.transactions_count ≡ clamp_i32 (length view.transactions)
  pub proposals_count : p.block.proposals_count ≡ clamp_i32 view.proposals_len
  pub uncles_count : p.block.uncles_count ≡ clamp_i32 view.uncles_len
  pub nonce : lib.decimal view.nonce ≡ some p.block.nonce
  pub dao : p.block.dao ≡ view.dao
  pub transactions :
      map columns_of p.transactions
      ≡ map (columns_at lib view.number) (enumerate 0 view.transactions)
  pub cells : map source_of p.cells ≡ concat_map sources view.transactions
  pub hashed : All (Hashed lib) p.cells
  pub consumed : p.consumed ≡ concat_map (spends view.number) view.transactions
