-- ===== src/Api/Webhooks/Routes.antt =====
-- crates/api/src/routes/webhooks.rs, the handlers behind the session middleware, and the
-- constraints of the `webhooks` table. `now` is the clock of the statement, and a handler that fails
-- leaves the table.
use cellora.Prelude.{
  ℕ, Bool, not, ◌&&◌, ◌||◌, Option, List, [], ◌∷◌, ◌++◌, map, Bytes, codes, ok, guard, ok_or,
  map_err, ◌>>=◌, ◌>>◌, any, select, length, ◌==◌, ltb,
}
use cellora.Prelude.Text.{is_empty}
use cellora.Prelude.Sorting.{order_desc}
use cellora.Db.Rows.{User}
use cellora.Db.Schema.{
  DbResult, Connection, send, unique_violation, foreign_key_violation, select_webhooks,
  insert_webhook,
}
use cellora.Db.Schema
use cellora.Api.Error.{ApiError, ApiResult, bad_request, not_found, from_db}
use cellora.Api.Session.{AuthenticatedSession}
use cellora.Api.Webhooks.{Network, validate_webhook_url}
use cellora.Api.Webhooks.Delivery.{Webhook}

pub record WebhookResponse : Type 0 where
  pub id : ℕ
  pub url : Bytes
  pub events : List Bytes
  pub created_at : ℕ

pub record CreateWebhookRequest : Type 0 where
  pub url : Bytes
  pub events : List Bytes
  pub secret : Option Bytes

unfoldable pub webhook_response : Webhook → WebhookResponse
webhook_response r = record { id = r.id; url = r.url; events = r.events; created_at = r.created_at }

-- WHERE user_id = $1
unfoldable pub of_user : ℕ → Webhook → Bool
of_user user_id r = r.user_id == user_id

-- ORDER BY created_at DESC
unfoldable pub newest_first : List Webhook → List Webhook
newest_first table = order_desc (λ (a b : Webhook). ltb a.created_at b.created_at) table

unfoldable pub list_webhooks :
    Connection → AuthenticatedSession → List Webhook → ApiResult (List WebhookResponse)
list_webhooks conn auth table = do
  map_err from_db (send conn select_webhooks)
  ok (map webhook_response (newest_first (select (of_user auth.user.id) table)))

-- `id` is the `gen_random_uuid()` of the new row: PRIMARY KEY (id), user_id REFERENCES users(id)
unfoldable pub insert :
    Connection
    → ℕ
    → ℕ
    → ℕ
    → CreateWebhookRequest
    → List User
    → List Webhook
    → DbResult (Webhook × List Webhook)
insert conn now id user_id req users table = do
  send conn insert_webhook
  guard (not (any (λ (r : Webhook). r.id == id) table)) unique_violation
  guard (any (λ (u : User). u.id == user_id) users) foreign_key_violation
  let row : Webhook = record {
    id = id;
    user_id = user_id;
    url = req.url;
    events = req.events;
    secret = req.secret;
    created_at = now;
  }
  ok (row, row ∷ table)

abbrev pub no_events : List Bytes → Bool
no_events [] = Bool.true
no_events (e ∷ es) = Bool.false

abbrev pub invalid_url : Bytes → ApiError
invalid_url reason = bad_request (codes "invalid webhook url: " ++ reason)

unfoldable pub create_webhook :
    Network
    → Connection
    → ℕ
    → ℕ
    → AuthenticatedSession
    → CreateWebhookRequest
    → List User
    → List Webhook
    → ApiResult (WebhookResponse × List Webhook)
create_webhook net conn now id auth req users table = do
  guard (not (is_empty req.url || no_events req.events))
      (bad_request (codes "url and events are required"))
  map_err invalid_url (validate_webhook_url net req.url)
  (row, grown) ← map_err from_db (insert conn now id auth.user.id req users table)
  ok (webhook_response row, grown)

-- WHERE id = $1 AND user_id = $2
unfoldable pub owned_by : ℕ → ℕ → Webhook → Bool
owned_by id user_id r = r.id == id && of_user user_id r

unfoldable pub delete_owned : Connection → ℕ → ℕ → List Webhook → DbResult (ℕ × List Webhook)
delete_owned conn id user_id table = do
  send conn Schema.delete_webhook
  ok (length (select (owned_by id user_id) table), select (λ r. not (owned_by id user_id r)) table)

-- `parse_str` is `Uuid::parse_str`; the result is the table that is left.
unfoldable pub delete_webhook :
    (Bytes → Option ℕ)
    → Connection
    → AuthenticatedSession
    → Bytes
    → List Webhook
    → ApiResult (List Webhook)
delete_webhook parse_str conn auth raw_id table = do
  id ← ok_or (parse_str raw_id) (bad_request (codes "invalid webhook id"))
  (affected, rest) ← map_err from_db (delete_owned conn id auth.user.id table)
  guard (not (affected == 0)) (not_found (codes "webhook not found"))
  ok rest
