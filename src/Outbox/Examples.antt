-- ===== src/Outbox/Examples.antt =====
-- Tests of the outbox relay, and the theorem at a concrete input.
use backend_go.Prelude.{false, none, some, All, [], ◌∷◌, codes, ◌≡◌, refl, trim_space}
use backend_go.Database.{open_session, begin, exec, query, commit, rollback}
use backend_go.Outbox.{
  OutboxEvent, EventStatus, Bus, Relay, relay_process, relay_events, relay_event, due_events,
}
use backend_go.Outbox.Delivery.{IsDelivered, relay_process-delivers}

abbrev waiting : OutboxEvent
waiting = record {
  id = 4;
  event_type = codes "payment.confirmed";
  payload = codes "{}";
  retry = 1;
  status = EventStatus.failed;
  available_at = 9;
  last_error = some (codes "no servers");
}

abbrev relay : Relay
relay = record { session = open_session (waiting ∷ []); bus = [] }

abbrev answering : Bus
answering = record { publish = λ before message. none; now = 10 }

abbrev silent : Bus
silent = record { publish = λ before message. some (codes "timeout"); now = 10 }

sent_once :
    (relay_process answering relay).bus
    ≡ record { event = 4; subject = codes "events.payment.confirmed"; payload = codes "{}" } ∷ []
unfolding relay_process relay_events relay_event due_events begin exec query commit rollback
    trim_space
sent_once = refl

tried_again :
    (relay_process silent relay).session.db
    ≡ record waiting { retry = 2; last_error = some (codes "timeout"); available_at = 14 } ∷ []
unfolding relay_process relay_events relay_event due_events begin exec query commit rollback
    trim_space
tried_again = refl

relay_process-delivers_example :
    All
      (IsDelivered (λ event. false) (relay_process answering relay).bus)
      (relay_process answering relay).session.db
relay_process-delivers_example =
    relay_process-delivers (λ event. false) answering relay ((λ h. cc), tt)
