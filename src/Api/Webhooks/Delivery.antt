-- ===== src/Api/Webhooks/Delivery.antt =====
-- crates/api/src/webhooks.rs, the dispatcher: which deliveries it spawns for the events that it
-- receives, and the request of one delivery. Each delivery runs on its own, with the answers of the
-- resolver and the clock of its own time.
use cellora.Prelude.{
  ℕ, Bool, Option, none, some, List, [], ◌∷◌, ◌++◌, Bytes, bytes_eq, codes, Result, ok, err, ◌>>◌,
  any, select,
}
use cellora.Prelude.Text.{decimal}
use cellora.Db.Schema.{DbResult, Connection, send, select_webhooks}
use cellora.Api.Webhooks.{SocketAddr, Network, build_pinned_client}

-- A row of `webhooks`; UUIDs are numbers, and times are milliseconds.
pub record Webhook : Type 0 where
  pub id : ℕ
  pub user_id : ℕ
  pub url : Bytes
  pub events : List Bytes
  pub secret : Option Bytes
  pub created_at : ℕ

pub record BlockMinedEvent : Type 0 where
  pub number : ℕ
  pub hash : Bytes
  pub parent_hash : Bytes
  pub timestamp : ℕ

pub record CellCreatedEvent : Type 0 where
  pub tx_hash : Bytes
  pub output_index : ℕ
  pub block_number : ℕ
  pub lock_code_hash : Bytes
  pub lock_hash_type : ℕ
  pub lock_args : Bytes
  pub lock_hash : Bytes
  pub type_code_hash : Option Bytes
  pub type_hash_type : Option ℕ
  pub type_args : Option Bytes
  pub type_hash : Option Bytes
  pub capacity_shannons : ℕ

pub data ApiEvent : Type 0 where
  block_mined : BlockMinedEvent → ApiEvent
  cell_created : CellCreatedEvent → ApiEvent

unfoldable pub event_type : ApiEvent → Bytes
event_type (block_mined b) = codes "block_mined"
event_type (cell_created c) = codes "cell_created"

-- The object that `json!` builds: "data" is what the event holds.
pub record Payload : Type 0 where
  pub event : Bytes
  pub data_of : ApiEvent

unfoldable pub payload_of : ApiEvent → Payload
payload_of (block_mined b) = record { event = codes "block_mined"; data_of = block_mined b }
payload_of (cell_created c) = record { event = codes "cell_created"; data_of = cell_created c }

-- `serde_json::to_vec`, `hex::encode`, and HMAC-SHA256: `new_from_slice` of a key, then the digest
-- of what it is updated with.
pub record Signing : Type 0 where
  pub to_vec : Payload → Option Bytes
  pub hex_encode : Bytes → Bytes
  pub new_from_slice : Bytes → Option (Bytes → Bytes)

-- WHERE $1 = ANY(events)
unfoldable pub has_event : Bytes → Webhook → Bool
has_event kind webhook = any (bytes_eq kind) webhook.events

unfoldable pub load_webhooks : Connection → Bytes → List Webhook → DbResult (List Webhook)
load_webhooks conn kind table = do send conn select_webhooks; ok (select (has_event kind) table)

-- What a spawned delivery captures.
pub record Delivery : Type 0 where
  pub url : Bytes
  pub secret : Option Bytes
  pub body : Bytes

abbrev pub task : Webhook → Bytes → Delivery
task webhook body = record { url = webhook.url; secret = webhook.secret; body = body }

-- the deliveries that one call adds to the tracker
unfoldable pub spawned : Webhook → Option Bytes → List Delivery
spawned webhook none = []
spawned webhook (some body) = task webhook body ∷ []

unfoldable pub dispatch_webhook : Signing → ApiEvent → Webhook → List Delivery
dispatch_webhook sign event webhook = spawned webhook (sign.to_vec (payload_of event))

-- A POST, and the address that it connects to.
pub record OutboundRequest : Type 0 where
  pub url : Bytes
  pub address : SocketAddr
  pub headers : List (Bytes × Bytes)
  pub body : Bytes

-- the bytes that `mac` is updated with
unfoldable pub signed_bytes : Bytes → Bytes → Bytes
signed_bytes timestamp body = timestamp ++ codes "." ++ body

unfoldable pub signature_with :
    Signing → Bytes → Bytes → Option (Bytes → Bytes) → List (Bytes × Bytes)
signature_with sign timestamp body none = []
signature_with sign timestamp body (some mac) =
    (codes "x-webhook-timestamp", timestamp)
    ∷ (
      codes "x-webhook-signature",
      codes "sha256=" ++ sign.hex_encode (mac (signed_bytes timestamp body)),
    )
    ∷ []

unfoldable pub signature_headers : Signing → ℕ → Bytes → Option Bytes → List (Bytes × Bytes)
signature_headers sign timestamp body none = []
signature_headers sign timestamp body (some secret) =
    signature_with sign (decimal timestamp) body (sign.new_from_slice secret)

abbrev pub post : Signing → ℕ → Delivery → SocketAddr → OutboundRequest
post sign timestamp d pinned = record {
  url = d.url;
  address = pinned;
  headers =
      (codes "content-type", codes "application/json")
      ∷ signature_headers sign timestamp d.body d.secret;
  body = d.body;
}

abbrev to_option : {A : Type 0} → (A → OutboundRequest) → Result Bytes A → Option OutboundRequest
to_option f (ok a) = some (f a)
to_option f (err reason) = none

-- The body of the spawned task, up to `send`: none where the URL is disallowed. `timestamp` is
-- `Utc::now().timestamp()`, in seconds.
unfoldable pub deliver : Signing → Network → ℕ → Delivery → Option OutboundRequest
deliver sign net timestamp d = to_option (post sign timestamp d) (build_pinned_client net d.url)

-- What one turn of the dispatcher's loop selects. An event is met with the server and the table
-- of that time.
pub data Turn : Type 0 where
  cancelled closed : Turn
  lagged : ℕ → Turn
  received : ApiEvent → Connection → List Webhook → Turn

unfoldable pub dispatch_all : Signing → ApiEvent → List Webhook → List Delivery
dispatch_all sign event [] = []
dispatch_all sign event (webhook ∷ webhooks) =
    dispatch_webhook sign event webhook ++ dispatch_all sign event webhooks

-- where the webhooks cannot be loaded, the event is passed over
unfoldable pub fan_out : Signing → ApiEvent → DbResult (List Webhook) → List Delivery
fan_out sign event (ok webhooks) = dispatch_all sign event webhooks
fan_out sign event (err e) = []

unfoldable pub on_event : Signing → ApiEvent → Connection → List Webhook → List Delivery
on_event sign event conn table = fan_out sign event (load_webhooks conn (event_type event) table)

-- The deliveries that the loop spawns, in their order.
unfoldable pub run_webhook_dispatcher : Signing → List Turn → List Delivery
run_webhook_dispatcher sign [] = []
run_webhook_dispatcher sign (cancelled ∷ turns) = []
run_webhook_dispatcher sign (closed ∷ turns) = []
run_webhook_dispatcher sign (lagged skipped ∷ turns) = run_webhook_dispatcher sign turns
run_webhook_dispatcher sign (received event conn table ∷ turns) =
    on_event sign event conn table ++ run_webhook_dispatcher sign turns
