-- ===== src/Api/Cells.antt =====
-- crates/api/src/routes/cells.rs: the handler of GET /v1/cells.
pub mod Paging
pub mod Complete
use cellora.Prelude.{
  ℕ, ◌+◌, Bool, true, false, not, Option, none, some, List, [], ◌∷◌, ◌++◌, Bytes, codes, ok, err,
  ok_or, map_err, guard, ◌>>=◌, ◌>>◌, ltb, ◌==◌, if◌then◌else◌, length, take,
}
use cellora.Prelude.Sorting.{last}
use mathlib.Core.Option
use cellora.Db.Rows.{StoredCell}
use cellora.Db.Schema.{Database, Connection, DbResult}
use cellora.Db.CellQueries.{
  LivenessFilter, only_live, only_consumed, any_liveness, CellCursor, Cell, key, query_by_lock_hash,
  query_by_type_hash,
}
use cellora.Api.Error.{ApiError, ApiResult, bad_request, internal, from_db}
use cellora.Api.Hex.{HexDecode, decode_prefixed, try_from_slice}
use cellora.Api.Pagination.{Codecs, encode_cells_cursor, decode_cells_cursor}
use cellora.Api.Registry.{Network, lock_slot, type_slot, lookup}
use cellora.Api.Tip.{TipSnapshot}

pub record CellsQuery : Type 0 where
  pub lock_hash : Option Bytes
  pub type_hash : Option Bytes
  pub is_live : Option Bool
  pub cursor : Option Bytes
  pub limit : Option ℕ
  pub include_data : Bool

pub record PageMeta : Type 0 where
  pub indexer_tip : Option ℕ
  pub node_tip : Option ℕ

pub record ScriptResponse : Type 0 where
  pub code_hash : Bytes
  pub hash_type : Bytes
  pub args : Bytes

pub record ConsumedByResponse : Type 0 where
  pub tx_hash : Bytes
  pub input_index : ℕ
  pub block_number : ℕ

pub record CellResponse : Type 0 where
  pub tx_hash : Bytes
  pub output_index : ℕ
  pub block_number : ℕ
  pub block_hash : Bytes
  pub capacity_shannons : ℕ
  pub lock : ScriptResponse
  pub lock_hash : Bytes
  pub lock_kind : Option Bytes
  pub type_script : Option ScriptResponse
  pub type_hash : Option Bytes
  pub type_kind : Option Bytes
  pub content : Option Bytes
  pub is_live : Bool
  pub consumed_by : Option ConsumedByResponse

pub record CellsPage : Type 0 where
  pub content : List CellResponse
  pub next_cursor : Option Bytes
  pub meta : PageMeta

-- What the handler reads of `AppState`: the configuration, the snapshot of the tips, the server.
pub record AppState : Type 0 where
  pub api_default_page_size : ℕ
  pub api_max_page_size : ℕ
  pub network : Network
  pub tip : TipSnapshot
  pub conn : Connection
  pub db : Database

pub data ScriptFilter : Type 0 where
  lock_filter type_filter : Bytes → ScriptFilter

-- The texts of the formatted messages stop before what `format!` fills in.
unfoldable pub parse_script_hash : HexDecode → Bytes → Bytes → ApiResult Bytes
parse_script_hash decode field raw = do
  bytes ←
      ok_or (decode_prefixed decode raw) (bad_request (field ++ codes " must be 0x-prefixed hex"))
  guard (length bytes == 32) (bad_request (field ++ codes " must be exactly 32 bytes"))
  ok bytes

unfoldable pub parse_filter : HexDecode → CellsQuery → ApiResult ScriptFilter
parse_filter decode params = elim params.lock_hash [
  | some lock ↦ elim params.type_hash [
    | some _ ↦ err (bad_request (codes "specify exactly one of 'lock_hash' or 'type_hash'"))
    | none ↦ do hash ← parse_script_hash decode (codes "'lock_hash'") lock; ok (lock_filter hash)
  ]
  | none ↦ elim params.type_hash [
    | some type_ ↦ do
      hash ← parse_script_hash decode (codes "'type_hash'") type_
      ok (type_filter hash)
    | none ↦ err (bad_request (codes "one of 'lock_hash' or 'type_hash' is required"))
  ]
]

unfoldable pub parse_liveness : Option Bool → LivenessFilter
parse_liveness (some true) = only_live
parse_liveness (some false) = only_consumed
parse_liveness none = any_liveness

unfoldable pub parse_limit : Option ℕ → AppState → ApiResult ℕ
parse_limit none state = ok state.api_default_page_size
parse_limit (some n) state =
    if n == 0
    then err (bad_request (codes "'limit' must be at least 1"))
    else if ltb state.api_max_page_size n
    then err (bad_request (codes "'limit' must not exceed "))
    else ok n

-- cursor.map(decode_cells_cursor).transpose()
unfoldable pub parse_cursor : Codecs → Option Bytes → ApiResult (Option CellCursor)
parse_cursor codecs none = ok none
parse_cursor codecs (some raw) = do cursor ← decode_cells_cursor codecs raw; ok (some cursor)

unfoldable pub hash_type_label : ℕ → ApiResult Bytes
hash_type_label raw =
    if raw == 0
    then ok (codes "data")
    else if raw == 1
    then ok (codes "type")
    else if raw == 2
    then ok (codes "data1")
    else if raw == 3
    then ok (codes "data2")
    else err internal

unfoldable pub script_response : Bytes → ℕ → Bytes → ApiResult ScriptResponse
script_response code_hash hash_type args = do
  code_hash' ← try_from_slice code_hash
  label ← hash_type_label hash_type
  ok (record { code_hash = code_hash'; hash_type = label; args = args })

unfoldable pub type_kind_of : Network → Option Bytes → Option ℕ → Option Bytes
type_kind_of network (some code_hash) (some hash_type) =
    lookup network code_hash hash_type type_slot
type_kind_of network (some code_hash) none = none
type_kind_of network none hash_type = none

unfoldable pub type_script_of :
    Option Bytes → Option ℕ → Option Bytes → Option Bytes → ApiResult (Option ScriptResponse)
type_script_of (some code_hash) (some hash_type) (some args) (some _) = do
  script ← script_response code_hash hash_type args
  ok (some script)
type_script_of _ _ _ _ = ok none

unfoldable pub type_hash_of : Option Bytes → ApiResult (Option Bytes)
type_hash_of none = ok none
type_hash_of (some hash) = do slice ← try_from_slice hash; ok (some slice)

unfoldable pub consumed_by_of :
    Option Bytes → Option ℕ → Option ℕ → ApiResult (Option ConsumedByResponse)
consumed_by_of (some tx) (some input_index) (some block_number) = do
  tx_hash ← try_from_slice tx
  ok (some (record { tx_hash = tx_hash; input_index = input_index; block_number = block_number }))
consumed_by_of _ _ _ = ok none

unfoldable pub is_none : Option ConsumedByResponse → Bool
is_none none = true
is_none (some _) = false

unfoldable pub render_cell : Cell → Bool → Network → ApiResult CellResponse
render_cell cell include_data network = do
  let row = cell.row
  let lock_kind = lookup network row.lock_code_hash row.lock_hash_type lock_slot
  lock ← script_response row.lock_code_hash row.lock_hash_type row.lock_args
  let type_kind = type_kind_of network row.type_code_hash row.type_hash_type
  type_script ← type_script_of row.type_code_hash row.type_hash_type row.type_args row.type_hash
  type_hash ← type_hash_of row.type_hash
  consumed_by ←
      consumed_by_of row.consumed_by_tx_hash row.consumed_by_input_index
        row.consumed_at_block_number
  tx_hash ← try_from_slice row.tx_hash
  block_hash ← try_from_slice cell.block_hash
  lock_hash ← try_from_slice row.lock_hash
  ok (record {
    tx_hash = tx_hash;
    output_index = row.output_index;
    block_number = row.block_number;
    block_hash = block_hash;
    capacity_shannons = row.capacity_shannons;
    lock = lock;
    lock_hash = lock_hash;
    lock_kind = lock_kind;
    type_script = type_script;
    type_hash = type_hash;
    type_kind = type_kind;
    content = if include_data then some row.content else none;
    is_live = is_none consumed_by;
    consumed_by = consumed_by;
  })

-- `collect` of the rendered rows stops at the first error
unfoldable pub render_all : List Cell → Bool → Network → ApiResult (List CellResponse)
render_all [] include_data network = ok []
render_all (cell ∷ cells) include_data network = do
  response ← render_cell cell include_data network
  responses ← render_all cells include_data network
  ok (response ∷ responses)

-- the rows of the page, and the cursor at its last row where there are more
unfoldable pub cut : ℕ → List Cell → List Cell × Option CellCursor
cut limit rows =
    if ltb limit (length rows)
    then (take limit rows, Option.map key (last (take limit rows)))
    else (rows, none)

unfoldable pub build_page :
    Codecs → List Cell → ℕ → Bool → Network → ApiResult (List CellResponse × Option Bytes)
build_page codecs rows limit include_data network = do
  let (page, next) = cut limit rows
  responses ← render_all page include_data network
  ok (responses, Option.map (encode_cells_cursor codecs) next)

unfoldable pub fetch :
    Connection
    → ScriptFilter
    → LivenessFilter
    → Option CellCursor
    → ℕ
    → Database
    → DbResult (List Cell)
fetch conn (lock_filter hash) liveness cursor fetch_limit db =
    query_by_lock_hash conn hash liveness cursor fetch_limit db
fetch conn (type_filter hash) liveness cursor fetch_limit db =
    query_by_type_hash conn hash liveness cursor fetch_limit db

unfoldable pub list_cells : Codecs → AppState → CellsQuery → ApiResult CellsPage
list_cells codecs state params = do
  filter ← parse_filter codecs.hex_decode params
  limit ← parse_limit params.limit state
  cursor ← parse_cursor codecs params.cursor
  cells ←
      map_err from_db
        (fetch state.conn filter (parse_liveness params.is_live) cursor (limit + 1) state.db)
  (page, next_cursor) ← build_page codecs cells limit params.include_data state.network
  ok (record {
    content = page;
    next_cursor = next_cursor;
    meta = record { indexer_tip = state.tip.indexer_tip; node_tip = state.tip.node_tip };
  })
