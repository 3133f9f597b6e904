-- ===== src/Api/Tests.antt =====
-- The API on small data: three cells in two blocks, a bucket of two tokens, one key.
use cellora.Prelude.{
  ℕ, ◌≡◌, ◌↔◌, refl, true, false, Option, none, some, map, List, [], ◌∷◌, ◌++◌, Bytes, length, ◌<◌,
  select, any, bytes_eq, codes, ok, err, arith, ◌*◌, ◌+◌, ◌-◌, ◌≤◌,
}
use cellora.Prelude.Sorting
use cellora.Prelude.Sorting.{Descending}
use cellora.Db.Blocks.{row_at}
use cellora.Db.CellQueries
use cellora.Db.Rows.{BlockRow, StoredCell, ApiKey, free}
use cellora.Db.Schema.{Database, empty, healthy}
use cellora.Db.CellQueries.{Cell, any_liveness, CellCursor}
use cellora.Db.CellQueries.Order.{cell_less}
use cellora.Db.ApiKeys.{rotate_for_user, revoke_for_user}
use cellora.Db.ApiKeys.Scope.{RowByRow, Scoped, rotate_for_user-Scoped}
use cellora.Indexer.Chain.{ckb_http}
use cellora.Api.Cells.{lock_filter}
use cellora.Api.Cells.Paging.{walk, everything}
use cellora.Api.Cells.Complete.{walk-everything}
use cellora.Api.Pagination.{
  Codecs, CellsCursorWire, RoundTrips, encode_cells_cursor, decode_cells_cursor,
  decode-encode_cells_cursor,
}
use cellora.Api.Tip
use cellora.Api.Tip.{Reading, TipSnapshot}
use cellora.Api.Tip.Freshness.{Recent, refreshes-Recent}
use cellora.Api.RateLimit
use cellora.Api.RateLimit.{LimitParams, one, div_ceil, token_bucket}
use cellora.Api.RateLimit.Admission.{admitted, admitted-Bounded, retry_after-suffices}
use cellora.Api.Keys
use cellora.Api.Keys.{split}
use cellora.Api.Keys.Format.{KeyParts, split-KeyParts}
use cellora.Api.Auth
use cellora.Api.Auth.{authenticated, resolve, AuthenticatedKey, Entry}
use cellora.Api.Auth.Grounds.{Grounds, resolve-Grounds}
use cellora.Api.Auth.Revocation.{
  Lookup, AuthState, Run, stay, and_then, caches, statement, revoke-Refused,
}
use cellora.Db.ApiKeys.Dead.{touches}
use mathlib.Core.List.Memᴰ
use cellora.Db.ApiKeys
use cellora.Api.Webhooks
use cellora.Api.Webhooks.{
  v4, v6, SocketAddr, Network, is_blocked_ip, build_pinned_client, validate_webhook_url,
}
use cellora.Api.Webhooks.Agreement.{validate_webhook_url-build_pinned_client}
use cellora.Api.Webhooks.Vetting.{Vetted, build_pinned_client-Vetted}
use cellora.Db.Checkpoint

abbrev block : ℕ → BlockRow
block n = record {
  number = n;
  hash = n ∷ [];
  parent_hash = [];
  timestamp_ms = 0;
  epoch = 0;
  transactions_count = 1;
  proposals_count = 0;
  uncles_count = 0;
  nonce = 0;
  dao = [];
}

abbrev cell : ℕ → ℕ → StoredCell
cell n index = record {
  tx_hash = (20 + n) ∷ [];
  output_index = index;
  block_number = n;
  capacity_shannons = 61;
  lock_code_hash = [];
  lock_hash_type = 1;
  lock_args = [];
  lock_hash = 8 ∷ [];
  type_code_hash = none;
  type_hash_type = none;
  type_args = none;
  type_hash = none;
  content = [];
  consumed_by_tx_hash = none;
  consumed_by_input_index = none;
  consumed_at_block_number = none;
}

abbrev db : Database
db = record empty { blocks = block 0 ∷ block 1 ∷ []; cells = cell 0 0 ∷ cell 1 0 ∷ cell 1 1 ∷ [] }

few : length (everything (lock_filter (8 ∷ [])) any_liveness db) < 9
unfolding CellQueries.matching CellQueries.join row_at CellQueries.has_liveness CellQueries.as_bool
    CellQueries.row_less CellQueries.bytes_lt Sorting.order_desc Sorting.insert_desc bytes_eq select
few = omega arith

walk-everything_example :
    (walk 9 healthy (lock_filter (8 ∷ [])) any_liveness 1 none db
      ≡ ok (everything (lock_filter (8 ∷ [])) any_liveness db))
    × Descending cell_less (everything (lock_filter (8 ∷ [])) any_liveness db)
walk-everything_example =
    walk-everything healthy (lock_filter (8 ∷ [])) any_liveness 1 db 9 refl (omega arith)
      ((λ h. absurd cc, (λ h. absurd cc, tt)), ((λ h. absurd cc, tt), (tt, tt))) few

-- Libraries that write a cursor as its fields, and change nothing else.
abbrev codecs : Codecs
codecs = record {
  hex_encode = λ bs. bs;
  hex_decode = some;
  to_vec = λ w. w.bn ∷ w.oi ∷ w.tx;
  from_slice = read_wire;
  base64_encode = λ bs. bs;
  base64_decode = some;
}
  where
    read_wire : Bytes → Option CellsCursorWire
    read_wire [] = none
    read_wire (bn ∷ []) = none
    read_wire (bn ∷ oi ∷ tx) = some (record { bn = bn; tx = tx; oi = oi })

codecs-RoundTrips : RoundTrips codecs
codecs-RoundTrips = record { hex = λ _. refl; json = λ _. refl; base64 = λ _. refl }

abbrev eight : Bytes
eight = 1 ∷ 2 ∷ 3 ∷ 4 ∷ 5 ∷ 6 ∷ 7 ∷ 8 ∷ []

abbrev cursor : CellCursor
cursor = record {
  block_number = 7;
  tx_hash = eight ++ (eight ++ (eight ++ eight));
  output_index = 2;
}

decode-encode_cells_cursor_example :
    decode_cells_cursor codecs (encode_cells_cursor codecs cursor) ≡ ok cursor
decode-encode_cells_cursor_example = decode-encode_cells_cursor codecs codecs-RoundTrips cursor refl

abbrev reading : ℕ → Reading
reading t = record {
  tip_block_number = ok 5;
  conn = healthy;
  database = db;
  wall = t;
  monotonic = t;
}

-- The node does not answer.
abbrev outage : ℕ → Reading
outage t = record (reading t) { tip_block_number = err ckb_http }

abbrev readings : List Reading
readings = outage 23000 ∷ reading 21000 ∷ reading 20000 ∷ []

old : Tip.is_stale 24000 (Tip.empty 11000) ≡ true
unfolding Tip.is_stale Tip.empty
old = refl

young : Tip.is_stale 24000 (Tip.refreshes readings (Tip.empty 11000)) ≡ false
unfolding Tip.is_stale Tip.empty Tip.refreshes Tip.refresh_once Tip.read_indexer_tip
    Tip.read_node_tip Checkpoint.read
young = refl

refreshes-Recent_example : Recent 24000 readings (Tip.empty 11000)
refreshes-Recent_example = refreshes-Recent 24000 readings (Tip.empty 11000) old young

-- Two tokens, refilled at one token in two seconds.
abbrev limits : LimitParams
limits = record { burst = 2; refill = 1; per = 2 }

admitted-Bounded_example :
    admitted limits (0 ∷ 10 ∷ 20 ∷ 2500 ∷ []) none * one limits ≤ 2 * one limits + (2500 - 0) * 1
admitted-Bounded_example =
    admitted-Bounded limits 0 (10 ∷ 20 ∷ 2500 ∷ []) (omega arith)
      (omega arith, (omega arith, (omega arith, tt)))

abbrev spent : Option RateLimit.Bucket
spent = some (record { tokens = 0; last = 0; expires_at = 8000 })

denied : (token_bucket limits 500 1 spent).0.allowed ≡ 0
unfolding token_bucket RateLimit.refilled RateLimit.present RateLimit.kept
denied = refl

two_seconds : 500 + div_ceil (token_bucket limits 500 1 spent).0.retry_after_ms 1000 * 1000 ≤ 2500
unfolding token_bucket RateLimit.refilled RateLimit.present RateLimit.kept RateLimit.retry_after
two_seconds = omega arith

retry_after-suffices_example :
    (token_bucket limits 2500 1 (some (token_bucket limits 500 1 spent).1)).0.allowed ≡ 1
retry_after-suffices_example =
    retry_after-suffices limits spent 500 2500 (omega arith) (omega arith) denied two_seconds

abbrev token : Bytes
token = codes "cell_0a1b2c3d_00112233445566778899aabbccddeeff"

token_splits : split token ≡ ok (codes "cell_0a1b2c3d", codes "00112233445566778899aabbccddeeff")
unfolding split Keys.split_once Keys.all_hex Keys.is_ascii_hexdigit bytes_eq
token_splits = refl

split-KeyParts_example :
    KeyParts token (codes "cell_0a1b2c3d") (codes "00112233445566778899aabbccddeeff")
split-KeyParts_example =
    split-KeyParts token (codes "cell_0a1b2c3d") (codes "00112233445566778899aabbccddeeff")
      token_splits

abbrev key : ℕ → ApiKey
key user = record {
  id = user;
  user_id = user;
  prefix = codes "cell_0a1b2c3d";
  secret_hash = codes "00112233445566778899aabbccddeeff";
  tier = free;
  label = none;
  created_at = 1;
  revoked_at = none;
  last_used_at = none;
}

accepted :
    (x : AuthenticatedKey × List Entry) × (resolve bytes_eq healthy 60 100 token (key 1 ∷ []) []
      ≡ ok x)
unfolding resolve Auth.cache_get Auth.look_up split Keys.split_once Keys.all_hex
    Keys.is_ascii_hexdigit Keys.verify bytes_eq ApiKeys.find_active_by_prefix ApiKeys.find
    ApiKeys.active_at ApiKeys.is_revoked
accepted = (_, refl)

resolve-Grounds_example : Grounds bytes_eq 60 100 token (key 1 ∷ []) [] accepted.0
resolve-Grounds_example =
    resolve-Grounds bytes_eq healthy 60 100 token (key 1 ∷ []) [] accepted.0 accepted.1

rotated :
    (x : Option ApiKey × List ApiKey) × (rotate_for_user healthy 1 1
        (codes "cell_ffffffff")
        []
        (key 1 ∷ key 2 ∷ [])
      ≡ ok (x.0, x.1))
unfolding rotate_for_user ApiKeys.prefix_taken ApiKeys.active_for ApiKeys.is_revoked ApiKeys.update
    ApiKeys.find bytes_eq any
rotated = (_, refl)

rotate_for_user-Scoped_example : RowByRow (Scoped 1 1) (key 1 ∷ key 2 ∷ []) rotated.0.1
rotate_for_user-Scoped_example =
    rotate_for_user-Scoped healthy 1 1 (codes "cell_ffffffff") [] (key 1 ∷ key 2 ∷ []) rotated.0.1
      rotated.0.0 rotated.1

abbrev public_address : SocketAddr
public_address = record { ip = v4 93 184 216 34; port = 443 }

abbrev net : Network
net = record {
  parse = λ raw. some (record { scheme = codes "https"; host = some raw; port = none });
  lookup_host = λ host port. some (public_address ∷ []);
  build = λ host addr. true;
}

delivered : build_pinned_client net (codes "example.com") ≡ ok public_address
unfolding build_pinned_client Webhooks.resolve_host Webhooks.pin is_blocked_ip
    Webhooks.is_blocked_v4 Webhooks.is_private Webhooks.is_documentation bytes_eq
delivered = refl

build_pinned_client-Vetted_example : Vetted net (codes "example.com") public_address
build_pinned_client-Vetted_example =
    build_pinned_client-Vetted net (codes "example.com") public_address delivered

-- The metadata service of a cloud, also as a mapped address, and the edges of 172.16.0.0/12.
blocked :
    map is_blocked_ip (
      v4 169 254 169 254
      ∷ v6 0 0 0 0 0 65535 43518 43518
      ∷ v4 172 15 0 1
      ∷ v4 172 31 0 1
      ∷ v4 172 32 0 1
      ∷ v4 192 168 0 1
      ∷ v4 100 64 0 1
      ∷ [])
    ≡ true ∷ true ∷ false ∷ true ∷ false ∷ true ∷ true ∷ []
unfolding is_blocked_ip Webhooks.is_blocked_v4 Webhooks.is_private Webhooks.is_documentation
    Webhooks.is_mapped
blocked = refl

revoked :
    (keys : List ApiKey) × (ApiKeys.revoke healthy 100 (codes "cell_0a1b2c3d") (key 1 ∷ [])
      ≡ ok (true, keys))
unfolding ApiKeys.revoke ApiKeys.active_at ApiKeys.is_revoked ApiKeys.update bytes_eq select
revoked = (_, refl)

-- A lookup that had read the key before its revocation at 100 is cached at 130.
abbrev overlapping : Lookup
overlapping = record { token = token; value = authenticated (key 1) }

abbrev late_cache : List Entry
late_cache = record { token = token; value = authenticated (key 1); inserted_at = 130 } ∷ []

abbrev overtaken : AuthState
overtaken = record { keys = revoked.0; cache = []; in_flight = overlapping ∷ [] }

abbrev cached_late : AuthState
cached_late = record { keys = revoked.0; cache = late_cache; in_flight = [] }

late : Run bytes_eq 60 overtaken 100 cached_late 130
late = and_then stay (omega arith) (caches overlapping [] [] refl)

touched :
    (keys : List ApiKey) × (ApiKeys.touch_last_used healthy 140 (codes "cell_0a1b2c3d") revoked.0
      ≡ ok keys)
unfolding ApiKeys.touch_last_used
touched = (_, refl)

later : Run bytes_eq 60 cached_late 130 (record cached_late { keys = touched.0 }) 140
later =
    and_then stay (omega arith)
      (statement healthy touched.0 (touches (codes "cell_0a1b2c3d") touched.0 touched.1))

-- The cache answers for the token until 190, and then it is refused.
answered : Auth.cache_get 60 189 token late_cache ≡ some (authenticated (key 1))
unfolding Auth.cache_get bytes_eq
answered = refl

revoke-Refused_example :
    (Auth.cache_get 60 190 token late_cache ≡ none)
    × ¬ (Auth.look_up bytes_eq healthy token touched.0 ≡ ok (key 1))
revoke-Refused_example =
    revoke-Refused bytes_eq 60 100 130 140 190 healthy healthy (codes "cell_0a1b2c3d") token
      (codes "00112233445566778899aabbccddeeff") (key 1 ∷ []) revoked.0 [] (overlapping ∷ [])
      cached_late (record cached_late { keys = touched.0 }) (key 1) revoked.1
      (λ e m. absurd (Memᴰ.not-nil m)) late (λ l m. absurd (Memᴰ.not-nil m)) later token_splits
      (omega arith)

validate_webhook_url-build_pinned_client_example :
    (validate_webhook_url net (codes "example.com") ≡ ok tt)
    ↔ ((pinned : SocketAddr) × (build_pinned_client net (codes "example.com") ≡ ok pinned))
validate_webhook_url-build_pinned_client_example =
    validate_webhook_url-build_pinned_client net (codes "example.com") (λ _ _. refl)
