-- ===== src/Api/Webhooks/Due.antt =====
-- The deliveries that the dispatcher spawns are those that its webhooks are due.
use mathlib.Core.List.{Memᴰ}
use mathlib.Core.List.Memᴰ
use mathlib.Core.Path.{subst}
use cellora.Prelude.{
  ◌≡◌, ◌↔◌, ◌⊎◌, refl, sym, true, false, Bool, ◌&&◌, Bool-cases, Option-cases, inl, inr, Option,
  none, some, List, [], ◌∷◌, ◌++◌, Bytes, bytes_eq, select, ℕ, suc, ◌+◌, any, length, arith,
  if◌then◌else◌,
}
use cellora.Prelude.Members.{Memᴰ-select, any-bytes_eq}
use cellora.Db.Schema.{Connection, select_webhooks}
use cellora.Api.Webhooks.Delivery.{
  Webhook, ApiEvent, Signing, Delivery, Turn, cancelled, closed, lagged, received, event_type,
  payload_of, has_event, task, load_webhooks, spawned, dispatch_webhook, dispatch_all, fan_out,
  on_event, run_webhook_dispatcher,
}

-- A webhook of the table that is subscribed to the event, where the server answers and the
-- payload has a text.
pub record Owed (sign : Signing) (d : Delivery) (event : ApiEvent) (conn : Connection)
    (table : List Webhook) : Type 0 where
  pub answered : conn select_webhooks ≡ false
  pub webhook : Webhook
  pub registered : Memᴰ webhook table
  pub subscribed : Memᴰ (event_type event) webhook.events
  pub body : Bytes
  pub serialised : sign.to_vec (payload_of event) ≡ some body
  pub delivery : d ≡ task webhook body

-- Owed for an event that comes before the cancellation and before the channel is closed.
abbrev pub Due : Signing → Delivery → List Turn → Type 0
Due sign d [] = ⊥
Due sign d (cancelled ∷ turns) = ⊥
Due sign d (closed ∷ turns) = ⊥
Due sign d (lagged skipped ∷ turns) = Due sign d turns
Due sign d (received event conn table ∷ turns) = Owed sign d event conn table ⊎ Due sign d turns

has_event_iff :
    (event : ApiEvent) (w : Webhook)
    → (has_event (event_type event) w ≡ true) ↔ Memᴰ (event_type event) w.events
unfolding has_event
has_event_iff event w = any-bytes_eq (event_type event) w.events

module _ (sign : Signing) (event : ApiEvent) (d : Delivery) where
  abbrev From : List Webhook → Type 0
  From webhooks =
      (w : Webhook) × Memᴰ w webhooks
      × (body : Bytes) × (sign.to_vec (payload_of event) ≡ some body)
      × (d ≡ task w body)

  dispatch_webhook-task :
      (w : Webhook)
      → Memᴰ d (dispatch_webhook sign event w)
        ↔ ((body : Bytes) × (sign.to_vec (payload_of event) ≡ some body) × (d ≡ task w body))
  unfolding dispatch_webhook spawned
  dispatch_webhook-task w = elim (Option-cases (sign.to_vec (payload_of event))) [
    | inl e ↦ rw e (λ m. absurd (Memᴰ.not-nil m), λ t. absurd (cc t.1))
    | inr (body, e) ↦ rw e (
      λ m. (body, refl, Memᴰ.eq_of_singleton m),
      λ t. let same : body ≡ t.0 = cc t.1 in Memᴰ.head (subst (λ b. d ≡ task w b) (sym same) t.2),
    )
  ]

  dispatch_all-From : (ws : List Webhook) → Memᴰ d (dispatch_all sign event ws) → From ws
  unfolding dispatch_all
  dispatch_all-From [] m = absurd (Memᴰ.not-nil m)
  dispatch_all-From (w ∷ ws) m = elim (Memᴰ.append_cases (dispatch_webhook sign event w) m) [
    | inl here ↦ let t = (dispatch_webhook-task w).0 here in (w, Memᴰ.head refl, t.0, t.1, t.2)
    | inr below ↦ let f = dispatch_all-From ws below in (f.0, Memᴰ.tail f.1, f.2, f.3, f.4)
  ]

  From-dispatch_all : (ws : List Webhook) → From ws → Memᴰ d (dispatch_all sign event ws)
  unfolding dispatch_all
  From-dispatch_all [] f = absurd (Memᴰ.not-nil f.1)
  From-dispatch_all (w ∷ ws) f = elim (Memᴰ.cases_cons f.1) [
    | inl same ↦
        Memᴰ.append_left (dispatch_all sign event ws)
          ((dispatch_webhook-task w).1 (f.2, f.3, subst (λ v. d ≡ task v f.2) same f.4))
    | inr below ↦
        Memᴰ.append_right (dispatch_webhook sign event w)
          (From-dispatch_all ws (f.0, below, f.2, f.3, f.4))
  ]

  on_event-Owed :
      (conn : Connection) (table : List Webhook)
      → Memᴰ d (on_event sign event conn table) ↔ Owed sign d event conn table
  unfolding on_event load_webhooks fan_out
  on_event-Owed conn table = elim (Bool-cases (conn select_webhooks)) [
    | inl e ↦ rw e (λ m. absurd (Memᴰ.not-nil m), λ o. absurd (cc (e, o.answered)))
    | inr e ↦ rw e (
      λ m.
          let f = dispatch_all-From (select (has_event (event_type event)) table) m in
          let kept = (Memᴰ-select (has_event (event_type event)) f.0 table).0 f.1 in
          record {
            answered = e;
            webhook = f.0;
            registered = kept.0;
            subscribed = (has_event_iff event f.0).0 kept.1;
            body = f.2;
            serialised = f.3;
            delivery = f.4;
          },
      λ o. From-dispatch_all (select (has_event (event_type event)) table) (
        o.webhook,
        (Memᴰ-select (has_event (event_type event)) o.webhook table).1
            (o.registered, (has_event_iff event o.webhook).1 o.subscribed),
        o.body,
        o.serialised,
        o.delivery,
      ),
    )
  ]

-- what is spawned, as a set
spawned_iff :
    (sign : Signing) (d : Delivery) (turns : List Turn)
    → Memᴰ d (run_webhook_dispatcher sign turns) ↔ Due sign d turns
unfolding run_webhook_dispatcher
spawned_iff sign d [] = (λ m. Memᴰ.not-nil m, λ x. absurd x)
spawned_iff sign d (cancelled ∷ turns) = (λ m. Memᴰ.not-nil m, λ x. absurd x)
spawned_iff sign d (closed ∷ turns) = (λ m. Memᴰ.not-nil m, λ x. absurd x)
spawned_iff sign d (lagged skipped ∷ turns) = spawned_iff sign d turns
spawned_iff sign d (received event conn table ∷ turns) = (
  λ m. elim (Memᴰ.append_cases (on_event sign event conn table) m) [
    | inl now ↦ inl ((on_event-Owed sign event d conn table).0 now)
    | inr later ↦ inr ((spawned_iff sign d turns).0 later)
  ],
  λ x. elim x [
    | inl now ↦
        Memᴰ.append_left (run_webhook_dispatcher sign turns)
          ((on_event-Owed sign event d conn table).1 now)
    | inr later ↦
        Memᴰ.append_right (on_event sign event conn table) ((spawned_iff sign d turns).1 later)
  ],
)

-- How many of the webhooks of a table are subscribed to an event and give a delivery that satisfies a
-- test.
unfoldable pub wanting : (Delivery → Bool) → Bytes → Bytes → List Webhook → ℕ
wanting p kind body [] = 0
wanting p kind body (w ∷ ws) =
    let others = wanting p kind body ws in
    if any (bytes_eq kind) w.events && p (task w body) then suc others else others

abbrev owed_count : (Delivery → Bool) → Bytes → List Webhook → Bool → Option Bytes → ℕ
owed_count p kind table true text = 0
owed_count p kind table false none = 0
owed_count p kind table false (some body) = wanting p kind body table

-- How many deliveries that satisfy a test are due.
abbrev pub due_count : Signing → (Delivery → Bool) → List Turn → ℕ
due_count sign p [] = 0
due_count sign p (cancelled ∷ turns) = 0
due_count sign p (closed ∷ turns) = 0
due_count sign p (lagged skipped ∷ turns) = due_count sign p turns
due_count sign p (received event conn table ∷ turns) =
    owed_count p (event_type event) table (conn select_webhooks) (sign.to_vec (payload_of event))
    + due_count sign p turns

length-select-append :
    (p : Delivery → Bool) (xs ys : List Delivery)
    → length (select p (xs ++ ys)) ≡ length (select p xs) + length (select p ys)
unfolding select
length-select-append p [] ys = omega arith
length-select-append p (x ∷ xs) ys = elim (Bool-cases (p x)) [
  | inl e ↦ rw e (omega (arith, length-select-append p xs ys))
  | inr e ↦ rw e (length-select-append p xs ys)
]

module _ (sign : Signing) (event : ApiEvent) (p : Delivery → Bool) where
  abbrev spawned_from : List Webhook → List Delivery
  spawned_from table = dispatch_all sign event (select (has_event (event_type event)) table)

  -- without a text nothing is spawned
  dispatch_all-none :
      (ws : List Webhook) → sign.to_vec (payload_of event) ≡ none → dispatch_all sign event ws ≡ []
  unfolding dispatch_all dispatch_webhook spawned
  dispatch_all-none [] e = refl
  dispatch_all-none (w ∷ ws) e = rw e (dispatch_all-none ws e)

  spawned_from-count :
      (body : Bytes) (table : List Webhook)
      → sign.to_vec (payload_of event) ≡ some body
      → length (select p (spawned_from table)) ≡ wanting p (event_type event) body table
  unfolding dispatch_all dispatch_webhook spawned has_event wanting select
  spawned_from-count body [] e = refl
  spawned_from-count body (w ∷ ws) e =
      elim (Bool-cases (any (bytes_eq (event_type event)) w.events)) [
        | inl k ↦ elim (Bool-cases (p (task w body))) [
          | inl q ↦ rw (k, e, q, spawned_from-count body ws e)
          | inr q ↦ rw (k, e, q, spawned_from-count body ws e)
        ]
        | inr k ↦ rw (k, spawned_from-count body ws e)
      ]

  on_event-count :
      (conn : Connection) (table : List Webhook)
      → length (select p (on_event sign event conn table))
        ≡ owed_count p
            (event_type event)
            table
            (conn select_webhooks)
            (sign.to_vec (payload_of event))
  unfolding on_event load_webhooks fan_out select
  on_event-count conn table = elim (Bool-cases (conn select_webhooks)) [
    | inl e ↦ rw e
    | inr e ↦ elim (Option-cases (sign.to_vec (payload_of event))) [
      | inl n ↦ rw (e, n, dispatch_all-none (select (has_event (event_type event)) table) n)
      | inr (body, n) ↦ rw (e, n) (spawned_from-count body table n)
    ]
  ]

spawned_count :
    (sign : Signing) (p : Delivery → Bool) (turns : List Turn)
    → length (select p (run_webhook_dispatcher sign turns)) ≡ due_count sign p turns
unfolding run_webhook_dispatcher select
spawned_count sign p [] = refl
spawned_count sign p (cancelled ∷ turns) = refl
spawned_count sign p (closed ∷ turns) = refl
spawned_count sign p (lagged skipped ∷ turns) = spawned_count sign p turns
spawned_count sign p (received event conn table ∷ turns) = rw (
  length-select-append p (on_event sign event conn table) (run_webhook_dispatcher sign turns),
  on_event-count sign event p conn table,
  spawned_count sign p turns,
)

-- The dispatcher spawns exactly the deliveries that are due: a webhook that is in the table when an
-- event comes and is subscribed to it is due one, with its URL, its secret and the text of the event,
-- where the server answers and the event comes before a cancellation and before the end of the
-- channel. Each is spawned as often as it is due: of the deliveries that satisfy any test there are as
-- many as there are such webhooks, event by event.
pub run_webhook_dispatcher-Due :
    (sign : Signing) (d : Delivery) (p : Delivery → Bool) (turns : List Turn)
    → (Memᴰ d (run_webhook_dispatcher sign turns) ↔ Due sign d turns)
      × (length (select p (run_webhook_dispatcher sign turns)) ≡ due_count sign p turns)
run_webhook_dispatcher-Due sign d p turns = (spawned_iff sign d turns, spawned_count sign p turns)
