-- ===== src/Indexer/Chain.antt =====
-- What the indexer reads of the CKB node's answers. `ckb_jsonrpc_types` is not in the repository:
-- these records hold the fields of its `BlockView` that the parser uses, numbers of any width as
-- numbers. What the parser only serialises again (`cell_deps`, `header_deps`, `witnesses`) is opaque.
use cellora.Prelude.{ℕ, Option, List, Bytes, Result}
use cellora.Prelude.Int.{ℤ}

pub record Script : Type 0 where
  pub code_hash : Bytes
  -- as printed by `hash_type.to_string()`
  pub hash_type : Bytes
  pub args : Bytes

pub record CellOutput : Type 0 where
  pub capacity : ℕ
  pub lock : Script
  pub type_script : Option Script

pub record CellInput : Type 0 where
  pub previous_tx_hash : Bytes
  pub previous_index : ℕ

pub record TransactionView : Type 0 where
  pub hash : Bytes
  pub version : ℕ
  pub cell_deps : Bytes
  pub header_deps : Bytes
  pub witnesses : Bytes
  pub inputs : List CellInput
  pub outputs : List CellOutput
  pub outputs_data : List Bytes

pub record BlockView : Type 0 where
  pub number : ℕ
  pub hash : Bytes
  pub parent_hash : Bytes
  pub timestamp : ℕ
  pub epoch : ℕ
  pub nonce : ℕ
  pub dao : Bytes
  pub proposals_len : ℕ
  pub uncles_len : ℕ
  pub transactions : List TransactionView

-- crates/common/src/error.rs, the variants that a call of the node raises. The text of the
-- message that the reorg walk makes up is kept as its parts.
pub data Message : Type 0 where
  from_node : Bytes → Message
  missing_block : ℕ → Message

pub data CommonError : Type 0 where
  ckb_http ckb_decode : CommonError
  ckb_rpc : ℤ → Message → CommonError

-- `CkbClient::get_block_by_number`: the node's answer at each height, `none` where it has no block.
abbrev pub Node : Type 0
Node = ℕ → Result CommonError (Option BlockView)
