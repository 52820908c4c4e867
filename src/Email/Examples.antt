-- ===== src/Email/Examples.antt =====
-- Tests of the email dispatcher, and the theorem at a concrete input.
use backend_go.Prelude.{
  ℕ, none, some, [], ◌∷◌, Text, codes, trim_space, List, map, arith, ◌≡◌, refl, Result, ok, err,
}
use backend_go.Float.{fixed_point}
use backend_go.Ids
use backend_go.Database.{open_session, pool_exec, pool_query}
use backend_go.Email.{
  Envelope, PaymentEmailContext, MailSetup, MailWorld, Handed, EmailMessage, unique_emails,
  reserve_notification, send_reserved, dispatch_to, dispatch, with_payment, handle_payment_failed,
  handle_event, handle_incoming, handle_all,
}
use backend_go.Email.Once.{IsOnce, handle_all-IsOnce}

two_addresses :
    unique_emails (codes " A@x.io" ∷ (codes "a@x.io" ∷ (codes " " ∷ (codes "b@x.io" ∷ []))))
    ≡ codes "a@x.io" ∷ (codes "b@x.io" ∷ [])
unfolding unique_emails trim_space
two_addresses = refl

abbrev event : Envelope
event = record {
  id = codes "e";
  event_type = codes "payment.failed";
  merchant = [];
  payload = codes "i";
}

abbrev context : PaymentEmailContext ℕ
context = record {
  intent = codes "i";
  merchant = codes "m";
  merchant_email = codes "m@x.io";
  customer_email = codes "c@x.io";
  link_title = codes "T";
  currency = [];
  expected = 0;
  received = 0;
  tx_hash = [];
  invoice_object = [];
}

abbrev first_refused : List Handed → EmailMessage → Result Text Text
first_refused [] message = err (codes "refused")
first_refused (h ∷ handed) message = ok (codes "id")

-- the sender refuses its first message
abbrev setup : MailSetup ℕ
setup = record {
  sender = codes "s@x.io";
  reply_to = [];
  send = first_refused;
  decode = λ payload. some event;
  user_data = λ payload. none;
  user_email = λ user. none;
  invoice_data = λ payload. none;
  payment_data = λ payload. some payload;
  load = λ intent. some context;
  object_bytes = λ key. none;
  base_name = λ key. key;
  format8 = λ amount. codes "0.00000000";
}

abbrev empty : MailWorld
empty = record { session = open_session []; handed = [] }

-- the event twice: the refused message is not sent again
not_retried :
    map
      (λ (h : Handed). h.recipient)
      (handle_all fixed_point setup (codes "p" ∷ (codes "p" ∷ [])) empty).handed
    ≡ codes "c@x.io" ∷ (codes "m@x.io" ∷ [])
unfolding handle_all handle_incoming handle_event handle_payment_failed with_payment dispatch
    dispatch_to send_reserved reserve_notification unique_emails pool_exec pool_query trim_space
    Ids.parse Ids.is_valid Ids.is_crockford
not_retried = refl

handle_all-IsOnce_example :
    IsOnce (handle_all fixed_point setup (codes "p" ∷ (codes "p" ∷ [])) empty)
handle_all-IsOnce_example =
    handle_all-IsOnce fixed_point setup (codes "p" ∷ (codes "p" ∷ [])) empty
      (record { once = λ e t r. omega arith; noted = λ e t r q. refl })
