-- ===== src/Webhook.antt =====
-- internal/platform/workers/webhook_dispatcher.go: events are delivered to merchants' endpoints,
-- with retries.
pub mod Retries
mod Examples
use backend_go.Prelude.{
  ℕ, suc, ◌+◌, ◌*◌, Bool, true, false, not, ◌&&◌, ◌||◌, Option, none, some, List, [], ◌∷◌, ◌++◌,
  Text, codes, text_eq, trim_space, select, take, find, any, ltb, leb, ◌==◌, if◌then◌else◌,
}
use backend_go.Database.{Session, pool_exec, pool_query}
use backend_go.Store.{update_where}

pub data DeliveryStatus : Type 0 where
  pending scheduled delivered failed : DeliveryStatus

-- the JSON column `events`: empty, not a list of texts, or a list
pub data EventsColumn : Type 0 where
  absent malformed : EventsColumn
  listed : List Text → EventsColumn

pub record Endpoint : Type 0 where
  pub id : ℕ
  pub merchant : ℕ
  pub url : Text
  pub secret_encrypted : Text
  pub enabled : Bool
  pub max_retries : ℕ
  pub events : EventsColumn

pub record Delivery : Type 0 where
  pub id : ℕ
  pub endpoint : ℕ
  pub merchant : ℕ
  pub event : Text
  pub event_type : Text
  pub payload : Text
  pub attempt : ℕ
  pub status : DeliveryStatus
  pub response_code : ℕ
  pub response_body : Text
  pub next_retry_at : ℕ
  pub delivered_at : Option ℕ

pub record WebhookTables : Type 0 where
  pub endpoints : List Endpoint
  pub deliveries : List Delivery

-- what http.DefaultClient.Do gives, with the body cut by the source
pub data Response : Type 0 where
  unreachable : Text → Response
  answered : ℕ → Text → Response

pub record Post : Type 0 where
  pub delivery : ℕ
  pub url : Text
  pub secret : Text
  pub attempt : ℕ

-- `respond` may depend on the requests made before.
pub record Net : Type 0 where
  pub decrypt : Text → Option Text
  pub respond : List Post → Post → Response
  pub now : ℕ
  pub default_max_retries : ℕ

pub record Dispatcher : Type 0 where
  pub session : Session WebhookTables
  pub posts : List Post

unfoldable pub event_allowed : EventsColumn → Text → Bool
event_allowed absent event_type = true
event_allowed malformed event_type = false
event_allowed (listed []) event_type = true
event_allowed (listed (e ∷ events)) event_type =
    any (λ raw. let evt = trim_space raw in text_eq evt (codes "*") || text_eq evt event_type)
      (e ∷ events)

abbrev pub update_delivery : ℕ → (Delivery → Delivery) → WebhookTables → WebhookTables
update_delivery id f t = record t {
  deliveries = update_where (λ (d : Delivery). d.id == id) f t.deliveries;
}

abbrev pub give_up : ℕ → Text → Delivery → Delivery
give_up code body d = record d {
  status = DeliveryStatus.failed;
  response_code = code;
  response_body = body;
}

-- seconds: time.Duration(nextAttempt*nextAttempt) * time.Second
abbrev pub reschedule : ℕ → ℕ → ℕ → Text → Delivery → Delivery
reschedule now next code body d = record d {
  status = DeliveryStatus.scheduled;
  attempt = next;
  response_code = code;
  response_body = body;
  next_retry_at = now + next * next;
}

-- the change that `scheduleFailure` writes
unfoldable pub failure_update : ℕ → ℕ → ℕ → ℕ → Text → Delivery → Delivery
failure_update now attempt max_retries code body =
    let next = attempt + 1 in
    if ltb max_retries next then give_up code body else reschedule now next code body

abbrev pub is_success : ℕ → Bool
is_success code = leb 200 code && ltb code 300

-- the change that a response leads to
unfoldable pub response_update : ℕ → ℕ → ℕ → Response → Delivery → Delivery
unfolding failure_update
response_update now attempt max_retries (unreachable error) =
    failure_update now attempt max_retries 0 error
response_update now attempt max_retries (answered code body) =
    if is_success code
    then (λ d. record d {
      status = DeliveryStatus.delivered;
      response_code = code;
      response_body = body;
      delivered_at = some now;
    })
    else failure_update now attempt max_retries code body

unfoldable pub deliver_and_update : Net → ℕ → Text → Text → ℕ → ℕ → Dispatcher → Dispatcher
deliver_and_update net id url secret_encrypted attempt max_retries w =
    elim (net.decrypt secret_encrypted) [
      | none ↦ record w {
        session =
            (pool_exec
              (update_delivery id (λ d. record d {
                status = DeliveryStatus.failed;
                response_body = codes "secret decrypt failed";
              }))
              w.session).1;
      }
      | some secret ↦
          let post : Post = record {
            delivery = id;
            url = url;
            secret = secret;
            attempt = attempt;
          } in
          record {
            session =
                (pool_exec
                  (update_delivery id
                    (response_update net.now attempt max_retries (net.respond w.posts post)))
                  w.session).1;
            posts = w.posts ++ post ∷ [];
          }
    ]

abbrev pub retries_or_default : Net → ℕ → ℕ
retries_or_default net n = if n == 0 then net.default_max_retries else n

-- one endpoint of `handleIncoming`
unfoldable pub deliver_to : Net → Text → Text → Text → Endpoint → Dispatcher → Dispatcher
deliver_to net event event_type payload e w =
    if event_allowed e.events event_type
    then (let id = w.session.next_id in
        let d : Delivery = record {
          id = id;
          endpoint = e.id;
          merchant = e.merchant;
          event = event;
          event_type = event_type;
          payload = payload;
          attempt = 1;
          status = DeliveryStatus.pending;
          response_code = 0;
          response_body = [];
          next_retry_at = net.now;
          delivered_at = none;
        } in
        let s =
          (pool_exec (λ (t : WebhookTables). record t { deliveries = t.deliveries ++ d ∷ [] })
            (record w.session { next_id = suc id })).1 in
        deliver_and_update net id e.url e.secret_encrypted 1 (retries_or_default net e.max_retries)
          (record w { session = s }))
    else w

unfoldable pub deliver_all : Net → Text → Text → Text → List Endpoint → Dispatcher → Dispatcher
deliver_all net event event_type payload [] w = w
deliver_all net event event_type payload (e ∷ endpoints) w =
    deliver_all net event event_type payload endpoints (deliver_to net event event_type payload e w)

-- an event of a merchant; one without a merchant is dropped
unfoldable pub handle_incoming : Net → Option ℕ → Text → Text → Text → Dispatcher → Dispatcher
handle_incoming net none event event_type payload w = w
handle_incoming net (some merchant) event event_type payload w =
    let (found, s) = pool_query w.session in
    if found
    then deliver_all net event event_type payload
        (select (λ (e : Endpoint). e.merchant == merchant && e.enabled) s.db.endpoints)
        (record w { session = s })
    else record w { session = s }

abbrev pub is_scheduled : DeliveryStatus → Bool
is_scheduled DeliveryStatus.scheduled = true
is_scheduled _ = false

abbrev pub cons_enabled :
    Delivery → Option Endpoint → List (Delivery × Endpoint) → List (Delivery × Endpoint)
cons_enabled d none rows = rows
cons_enabled d (some e) rows = if e.enabled then (d, e) ∷ rows else rows

-- the rows of the query in `processScheduled`, before its LIMIT
unfoldable pub due_deliveries : ℕ → List Endpoint → List Delivery → List (Delivery × Endpoint)
due_deliveries now endpoints [] = []
due_deliveries now endpoints (d ∷ deliveries) =
    let rest = due_deliveries now endpoints deliveries in
    if is_scheduled d.status && leb d.next_retry_at now
    then cons_enabled d (find (λ (e : Endpoint). e.id == d.endpoint) endpoints) rest
    else rest

unfoldable pub redeliver_all : Net → List (Delivery × Endpoint) → Dispatcher → Dispatcher
redeliver_all net [] w = w
redeliver_all net ((d, e) ∷ rows) w = redeliver_all net rows (
    deliver_and_update net d.id e.url e.secret_encrypted d.attempt
      (retries_or_default net e.max_retries) w)

unfoldable pub process_scheduled : Net → Dispatcher → Dispatcher
process_scheduled net w =
    let (found, s) = pool_query w.session in
    if found
    then redeliver_all net (take 100 (due_deliveries net.now s.db.endpoints s.db.deliveries))
        (record w { session = s })
    else record w { session = s }

-- the ticks of `Run`, each with what the world is like then
unfoldable pub run_ticks : List Net → Dispatcher → Dispatcher
run_ticks [] w = w
run_ticks (net ∷ nets) w = run_ticks nets (process_scheduled net w)
