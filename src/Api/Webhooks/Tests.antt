-- ===== src/Api/Webhooks/Tests.antt =====
-- A webhook from its creation to its deletion, on small data.
use mathlib.Core.List.{Memᴰ}
use cellora.Prelude.{
  ◌≡◌, ◌↔◌, refl, true, none, some, List, [], ◌∷◌, Bytes, bytes_eq, codes, ok, err, any, arith, ℕ,
  Option, select, length,
}
use cellora.Db.Rows.{User}
use cellora.Db.Schema.{healthy}
use cellora.Api.Error.{not_found}
use cellora.Api.Session.{AuthenticatedSession}
use cellora.Api.Webhooks
use cellora.Api.Webhooks.{v4, SocketAddr, Network}
use cellora.Api.Webhooks.Delivery
use cellora.Api.Webhooks.Delivery.{
  Webhook, BlockMinedEvent, ApiEvent, Signing, Delivery, OutboundRequest, Turn, block_mined,
  cancelled, lagged, received, task, post, deliver, run_webhook_dispatcher,
}
use cellora.Api.Webhooks.Routes
use cellora.Api.Webhooks.Routes.{
  CreateWebhookRequest, create_webhook, webhook_response, delete_webhook,
}
use cellora.Api.Webhooks.Due.{Due, wanting, run_webhook_dispatcher-Due}
use cellora.Api.Webhooks.Signed.{Signed, deliver-Signed}
use cellora.Api.Webhooks.Vetting.{Vetted}
use cellora.Api.Webhooks.Owner.{Deletion, delete_webhook-Deletion}
use cellora.Api.Webhooks.Fires.{Fires, create_webhook-Fires}

abbrev address : SocketAddr
address = record { ip = v4 93 184 216 34; port = 443 }

abbrev net : Network
net = record {
  parse = λ raw. some (record { scheme = codes "https"; host = some raw; port = none });
  lookup_host = λ host port. some (address ∷ []);
  build = λ host addr. true;
}

-- a digest that shows the key and the message
abbrev sign : Signing
sign = record {
  to_vec = λ p. some p.event;
  hex_encode = λ bytes. bytes;
  new_from_slice = λ key. some λ message. key;
}

abbrev mined : ApiEvent
mined = block_mined (record { number = 7; hash = 1 ∷ []; parent_hash = 0 ∷ []; timestamp = 9 })

abbrev session_of : ℕ → AuthenticatedSession
session_of id = record {
  session = record {
    token_hash = [];
    user_id = id;
    created_at = 0;
    expires_at = 9;
    last_seen_at = 0;
    user_agent = none;
  };
  user = user id;
}
  where
    user : ℕ → User
    user id = record {
      id = id;
      github_user_id = id;
      github_login = [];
      email = none;
      avatar_url = none;
      created_at = 0;
      updated_at = 0;
    }

abbrev request : CreateWebhookRequest
request = record {
  url = codes "example.com";
  events = codes "block_mined" ∷ [];
  secret = some (codes "s");
}

abbrev made : Webhook
made = record {
  id = 5;
  user_id = 1;
  url = codes "example.com";
  events = codes "block_mined" ∷ [];
  secret = some (codes "s");
  created_at = 100;
}

created :
    create_webhook net healthy 100 5 (session_of 1) request ((session_of 1).user ∷ []) []
    ≡ ok (webhook_response made, made ∷ [])
unfolding create_webhook Routes.insert Webhooks.validate_webhook_url Webhooks.resolve_host
    Webhooks.vet Webhooks.is_blocked_ip Webhooks.is_blocked_v4 Webhooks.is_private
    Webhooks.is_documentation bytes_eq any
created = refl

create_webhook-Fires_example :
    Fires net sign 1000
      (session_of 1)
      request
      (made ∷ [])
      (webhook_response made)
      mined
      (codes "block_mined")
      []
unfolding Delivery.event_type Delivery.payload_of
create_webhook-Fires_example =
    create_webhook-Fires net sign healthy 100 5 1000 (session_of 1) request
      ((session_of 1).user ∷ []) [] (made ∷ []) (webhook_response made) mined (codes "block_mined")
      [] (λ host addr. refl) (λ key. ((λ message. key), refl)) created (Memᴰ.head refl) refl

posted :
    deliver sign net 1000 (task made (codes "block_mined"))
    ≡ some (post sign 1000 (task made (codes "block_mined")) address)
unfolding deliver Webhooks.build_pinned_client Webhooks.resolve_host Webhooks.pin
    Webhooks.is_blocked_ip Webhooks.is_blocked_v4 Webhooks.is_private Webhooks.is_documentation
    bytes_eq
posted = refl

deliver-Signed_example :
    (codes "example.com" ≡ codes "example.com")
    × (codes "block_mined" ≡ codes "block_mined")
    × Vetted net (codes "example.com") address
    × Signed sign (some (codes "s")) (post sign 1000 (task made (codes "block_mined")) address)
deliver-Signed_example =
    deliver-Signed sign net 1000 (task made (codes "block_mined"))
      (post sign 1000 (task made (codes "block_mined")) address) (λ key. ((λ message. key), refl))
      posted

-- the event after the cancellation is not delivered
abbrev turns : List Turn
turns = lagged 2 ∷ received mined healthy (made ∷ []) ∷ cancelled ∷ received mined healthy [] ∷ []

run_webhook_dispatcher-Due_example :
    (Memᴰ (task made (codes "block_mined")) (run_webhook_dispatcher sign turns)
      ↔ Due sign (task made (codes "block_mined")) turns)
    × (length (select (λ d. true) (run_webhook_dispatcher sign turns)) ≡ 1)
unfolding Delivery.event_type Delivery.payload_of wanting bytes_eq any
run_webhook_dispatcher-Due_example =
    run_webhook_dispatcher-Due sign (task made (codes "block_mined")) (λ d. true) turns

ran : run_webhook_dispatcher sign turns ≡ task made (codes "block_mined") ∷ []
unfolding run_webhook_dispatcher Delivery.on_event Delivery.fan_out Delivery.load_webhooks
    Delivery.dispatch_all Delivery.dispatch_webhook Delivery.spawned Delivery.has_event
    Delivery.event_type Delivery.payload_of bytes_eq any select
ran = refl

abbrev parse_id : Bytes → Option ℕ
parse_id [] = none
parse_id (b ∷ bs) = some b

-- its user deletes it, another user may not
deleted : delete_webhook parse_id healthy (session_of 1) (5 ∷ []) (made ∷ []) ≡ ok []
unfolding delete_webhook Routes.delete_owned Routes.owned_by Routes.of_user select
deleted = refl

refused :
    delete_webhook parse_id healthy (session_of 2) (5 ∷ []) (made ∷ [])
    ≡ err (not_found (codes "webhook not found"))
unfolding delete_webhook Routes.delete_owned Routes.owned_by Routes.of_user select
refused = refl

delete_webhook-Deletion_example :
    Deletion parse_id
      (session_of 1)
      (session_of 2)
      (5 ∷ [])
      (made ∷ [])
      (delete_webhook parse_id healthy (session_of 1) (5 ∷ []) (made ∷ []))
delete_webhook-Deletion_example =
    delete_webhook-Deletion parse_id (session_of 1) (session_of 2) (5 ∷ []) (made ∷ [])
      λ h. absurd (omega arith)
