-- ===== src/Api/Webhooks/Fires.antt =====
-- From the creation of a webhook to the request that its receiver gets.
use mathlib.Core.List.{Memᴰ}
use mathlib.Core.Path.{subst}
use cellora.Prelude.{
  ℕ, ◌≡◌, refl, sym, true, inl, some, List, ◌∷◌, map, Bytes, ok, not, any, ◌==◌, map_err, Ensures,
  Ensures-bind, Ensures-guard, Ensures-ok, map_err-eq-ok, select, ap, ◌||◌, ◌>>=◌, ==_iff,
}
use cellora.Prelude.Members.{Memᴰ-select, Memᴰ-order_desc, Memᴰ-map}
use cellora.Db.Rows.{User}
use cellora.Prelude.Text.{is_empty}
use cellora.Db.Schema.{DbResult, Connection, send, healthy, insert_webhook}
use cellora.Api.Error.{from_db}
use cellora.Api.Session.{AuthenticatedSession}
use cellora.Api.Webhooks.{SocketAddr, Network, validate_webhook_url}
use cellora.Api.Webhooks.Agreement.{validate_webhook_url-build_pinned_client}
use cellora.Api.Webhooks.Vetting.{Vetted}
use cellora.Api.Webhooks.Delivery.{
  Webhook, ApiEvent, Signing, Delivery, OutboundRequest, received, Turn, event_type, payload_of,
  task, post, deliver, run_webhook_dispatcher,
}
use cellora.Api.Webhooks.Routes.{
  WebhookResponse, CreateWebhookRequest, webhook_response, of_user, newest_first, list_webhooks,
  insert, invalid_url, no_events, create_webhook,
}
use cellora.Api.Webhooks.Due.{run_webhook_dispatcher-Due}
use cellora.Api.Webhooks.Signed.{AnyKey, Signed, deliver-Signed}

-- the row that a request makes
abbrev new_row : ℕ → ℕ → ℕ → CreateWebhookRequest → Webhook
new_row now id user_id req = record {
  id = id;
  user_id = user_id;
  url = req.url;
  events = req.events;
  secret = req.secret;
  created_at = now;
}

module _ (net : Network) (conn : Connection) (now id : ℕ) (auth : AuthenticatedSession)
    (req : CreateWebhookRequest) (users : List User) (table : List Webhook) where
  abbrev row : Webhook
  row = new_row now id auth.user.id req

  abbrev Inserted : Webhook × List Webhook → Type 0
  Inserted (w, grown) = (w ≡ row) × (grown ≡ row ∷ table)

  insert-Inserted : Ensures Inserted (insert conn now id auth.user.id req users table)
  unfolding insert
  insert-Inserted = Ensures-bind Inserted (send conn insert_webhook) _ λ _ _.
      Ensures-guard Inserted (not (any (λ (r : Webhook). r.id == id) table)) _ _ λ _.
        Ensures-guard Inserted (any (λ (u : User). u.id == auth.user.id) users) _ _
          λ _. (refl, refl)

  abbrev Created : WebhookResponse × List Webhook → Type 0
  Created (resp, grown) =
      (validate_webhook_url net req.url ≡ ok tt)
      × (resp ≡ webhook_response row)
      × (grown ≡ row ∷ table)

  pub create_webhook-Created : Ensures Created (create_webhook net conn now id auth req users table)
  unfolding create_webhook
  create_webhook-Created =
      Ensures-guard Created (not (is_empty req.url || no_events req.events)) _ _ λ _.
        Ensures-bind Created (map_err invalid_url (validate_webhook_url net req.url))
          (λ _. map_err from_db stored >>= λ x. ok (webhook_response x.0, x.1))
          λ u eu.
            Ensures-bind Created (map_err from_db stored) (λ x. ok (webhook_response x.0, x.1))
              λ x ex.
                let made =
                  Ensures-ok Inserted stored x insert-Inserted (map_err-eq-ok from_db stored ex) in
                (map_err-eq-ok invalid_url _ eu, ap webhook_response made.0, made.1)
    where
      stored : DbResult (Webhook × List Webhook)
      stored = insert conn now id auth.user.id req users table

-- the user's list has the row
listed :
    (auth : AuthenticatedSession) (w : Webhook) (table : List Webhook)
    → of_user auth.user.id w ≡ true
    → (views : List WebhookResponse) × (list_webhooks healthy auth (w ∷ table) ≡ ok views)
      × Memᴰ (webhook_response w) views
unfolding list_webhooks newest_first
listed auth w table h = (
  map webhook_response (newest_first (select (of_user auth.user.id) (w ∷ table))),
  refl,
  Memᴰ-map webhook_response w _ (
      Memᴰ-order_desc _ w _
        ((Memᴰ-select (of_user auth.user.id) w (w ∷ table)).1 (Memᴰ.head refl, h))),
)

-- What follows a creation: the user's list shows the webhook, the dispatcher spawns its delivery for
-- an event that it names, and the delivery posts the text of the event to the URL.
pub record Fires (net : Network) (sign : Signing) (timestamp : ℕ) (auth : AuthenticatedSession)
    (req : CreateWebhookRequest) (grown : List Webhook) (resp : WebhookResponse) (event : ApiEvent)
    (body : Bytes) (turns : List Turn) : Type 0 where
  pub views : List WebhookResponse
  pub shown : list_webhooks healthy auth grown ≡ ok views
  pub among : Memᴰ resp views
  pub delivery : Delivery
  pub dispatched :
      Memᴰ delivery (run_webhook_dispatcher sign (received event healthy grown ∷ turns))
  pub request : OutboundRequest
  pub sent : deliver sign net timestamp delivery ≡ some request
  pub to_url : request.url ≡ req.url
  pub text : request.body ≡ body
  pub vetted : Vetted net req.url request.address
  pub signed : Signed sign req.secret request

-- Once a webhook was created, its user's list shows it, and the next event of a kind that it names is
-- delivered: the dispatcher spawns a delivery that posts the text of the event to its URL, through
-- a vetted address and with a signature that its secret verifies, if it has one. The server answers,
-- the names resolve as they did at the creation, the HTTP client can be built, HMAC takes any key,
-- and the event has a text.
pub create_webhook-Fires :
    (net : Network) (sign : Signing) (conn : Connection) (now id timestamp : ℕ)
    (auth : AuthenticatedSession) (req : CreateWebhookRequest) (users : List User)
    (table grown : List Webhook) (resp : WebhookResponse) (event : ApiEvent) (body : Bytes)
    (turns : List Turn)
    → ((host : Bytes) (addr : SocketAddr) → net.build host addr ≡ true)
    → AnyKey sign
    → create_webhook net conn now id auth req users table ≡ ok (resp, grown)
    → Memᴰ (event_type event) req.events
    → sign.to_vec (payload_of event) ≡ some body
    → Fires net sign timestamp auth req grown resp event body turns
unfolding deliver
create_webhook-Fires net sign conn now id timestamp auth req users table grown resp event body turns
      builds keys created named serialised =
    let made =
      Ensures-ok (Created net conn now id auth req users table) _ (resp, grown)
        (create_webhook-Created net conn now id auth req users table) created in
    let new : Webhook = new_row now id auth.user.id req in
    let d : Delivery = task new body in
    let in_list =
      listed auth new table (unfold of_user in (==_iff auth.user.id auth.user.id).1 refl) in
    let vetted = (validate_webhook_url-build_pinned_client net req.url builds).0 made.0 in
    let went : deliver sign net timestamp d ≡ some (post sign timestamp d vetted.0) =
      rw vetted.1 refl in
    let posted = deliver-Signed sign net timestamp d (post sign timestamp d vetted.0) keys went in
    subst (λ (t : List Webhook). Fires net sign timestamp auth req t resp event body turns)
      (sym made.2)
      (subst
        (λ (v : WebhookResponse).
          Fires net sign timestamp auth req (new ∷ table) v event body turns)
        (sym made.1)
        (record {
          views = in_list.0;
          shown = in_list.1;
          among = in_list.2;
          delivery = d;
          dispatched =
              (run_webhook_dispatcher-Due sign d (λ _. true)
                  (received event healthy (new ∷ table) ∷ turns)).0.1
                (inl (record {
                  answered = refl;
                  webhook = new;
                  registered = Memᴰ.head refl;
                  subscribed = named;
                  body = body;
                  serialised = serialised;
                  delivery = refl;
                }));
          request = post sign timestamp d vetted.0;
          sent = went;
          to_url = posted.0;
          text = posted.1;
          vetted = posted.2;
          signed = posted.3;
        }))
