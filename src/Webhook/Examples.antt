-- ===== src/Webhook/Examples.antt =====
-- Tests of the webhook dispatcher, and the theorem at a concrete input.
use backend_go.Prelude.{List, ◌≡◌, true, none, some, [], ◌∷◌, codes, refl, trim_space}
use backend_go.Database.{open_session, pool_exec, pool_query}
use backend_go.Webhook.{
  Delivery, DeliveryStatus, Endpoint, EventsColumn, listed, answered, event_allowed, Net,
  Dispatcher, handle_incoming, deliver_all, deliver_to, deliver_and_update, response_update,
  failure_update,
}

abbrev fresh : Delivery
fresh = record {
  id = 1;
  endpoint = 5;
  merchant = 2;
  event = codes "e";
  event_type = codes "payment.confirmed";
  payload = codes "{}";
  attempt = 1;
  status = DeliveryStatus.pending;
  response_code = 0;
  response_body = [];
  next_retry_at = 10;
  delivered_at = none;
}

abbrev endpoint : Endpoint
endpoint = record {
  id = 5;
  merchant = 2;
  url = codes "https://shop";
  secret_encrypted = codes "s";
  enabled = true;
  max_retries = 0;
  events = EventsColumn.absent;
}

abbrev net : Net
net = record {
  decrypt = λ s. some s;
  respond = λ before post. answered 503 (codes "busy");
  now = 10;
  default_max_retries = 2;
}

abbrev quiet : Dispatcher
quiet = record {
  session = open_session (record { endpoints = endpoint ∷ []; deliveries = [] });
  posts = [];
}

any_event :
    event_allowed (listed (codes "refund" ∷ codes " * " ∷ [])) (codes "payment.confirmed") ≡ true
unfolding event_allowed trim_space
any_event = refl

busy :
    (handle_incoming net
      (some 2)
      (codes "e")
      (codes "payment.confirmed")
      (codes "{}")
      quiet).session.db.deliveries
    ≡ record fresh {
      attempt = 2;
      status = DeliveryStatus.scheduled;
      response_code = 503;
      response_body = codes "busy";
      next_retry_at = 14;
    }
      ∷ []
unfolding handle_incoming deliver_all deliver_to deliver_and_update response_update failure_update
    event_allowed pool_exec pool_query
busy = refl

abbrev retried : Delivery
retried = record fresh { attempt = 2; status = DeliveryStatus.scheduled; next_retry_at = 14 }

abbrev other : Delivery
other = record fresh { id = 9; status = DeliveryStatus.delivered }

abbrev two_ticks : List Net
two_ticks =
    record net { now = 15; default_max_retries = 3 }
    ∷ (record net { now = 24; default_max_retries = 3 } ∷ [])
