-- ===== src/Outbox.antt =====
-- internal/platform/workers/outbox_relay.go: events of the outbox table are published to the bus.
pub mod Delivery
mod Examples
use backend_go.Prelude.{
  ℕ, suc, ◌+◌, ◌*◌, Bool, true, false, not, ◌&&◌, Option, none, some, List, [], ◌∷◌, ◌++◌, Text,
  codes, trim_space, select, take, leb, ◌==◌, if◌then◌else◌,
}
use backend_go.Database.{Session, begin, exec, query, commit, rollback}
use backend_go.Store.{update_where}

pub data EventStatus : Type 0 where
  pending published failed : EventStatus

-- a row of platform.outbox_events; the rows of the table are in the order of created_at
pub record OutboxEvent : Type 0 where
  pub id : ℕ
  pub event_type : Text
  pub payload : Text
  pub retry : ℕ
  pub status : EventStatus
  pub available_at : ℕ
  pub last_error : Option Text

pub record Message : Type 0 where
  pub event : ℕ
  pub subject : Text
  pub payload : Text

abbrev pub Rows : Type 0
Rows = List OutboxEvent

-- the database session, and what has been handed to the bus
pub record Relay : Type 0 where
  pub session : Session Rows
  pub bus : List Message

-- `publish` is NATS.Publish: none on success, else the error's text. It may depend on what was
-- published before.
pub record Bus : Type 0 where
  pub publish : List Message → Message → Option Text
  pub now : ℕ

abbrev pub is_waiting : EventStatus → Bool
is_waiting EventStatus.pending = true
is_waiting EventStatus.failed = true
is_waiting EventStatus.published = false

-- the rows of the query: LIMIT 100
unfoldable pub due_events : ℕ → Rows → Rows
due_events now rows =
    take 100 (select (λ (r : OutboxEvent). is_waiting r.status && leb r.available_at now) rows)

abbrev pub message_of : OutboxEvent → Message
message_of r = record {
  event = r.id;
  subject = codes "events." ++ trim_space r.event_type;
  payload = r.payload;
}

-- seconds: time.Duration(event.Retry+1) * time.Second * 2
abbrev pub backoff : ℕ → ℕ
backoff retry = (retry + 1) * 2

abbrev pub mark_failed : ℕ → OutboxEvent → Text → Rows → Rows
mark_failed now event error rows =
    update_where (λ (r : OutboxEvent). r.id == event.id)
      (λ r. record r {
        status = EventStatus.failed;
        retry = r.retry + 1;
        last_error = some error;
        available_at = now + backoff event.retry;
      })
      rows

abbrev pub mark_published : OutboxEvent → Rows → Rows
mark_published event rows =
    update_where (λ (r : OutboxEvent). r.id == event.id)
      (λ r. record r { status = EventStatus.published; last_error = none }) rows

-- one event; the Boolean is false where the source returns from `process`
unfoldable pub relay_event : Bus → OutboxEvent → Relay → Bool × Relay
relay_event b event w = elim (b.publish w.bus (message_of event)) [
  | some error ↦ (true, record w { session = (exec (mark_failed b.now event error) w.session).1 })
  | none ↦
      let (marked, s) = exec (mark_published event) w.session in
      (marked, record { session = s; bus = w.bus ++ message_of event ∷ [] })
]

unfoldable pub relay_events : Bus → Rows → Relay → Bool × Relay
relay_events b [] w = (true, w)
relay_events b (event ∷ events) w =
    let (going, w') = relay_event b event w in
    let rest = relay_events b events w' in if going then rest else (false, w')

unfoldable pub relay_process : Bus → Relay → Relay
relay_process b w =
    let (begun, s1) = begin w.session in
    let (found, s2) = query s1 in
    let (going, w') = relay_events b (due_events b.now s2.work) (record w { session = s2 }) in
    if not begun
    then record w { session = s1 }
    else if not found
    then record w { session = rollback s2 }
    else if going
    then record w' { session = rollback (commit w'.session).1 }
    else record w' { session = rollback w'.session }
