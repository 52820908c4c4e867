-- ===== src/Email.antt =====
-- internal/platform/workers/email_dispatcher.go. The sender, the object store, JSON, the formatting
-- of amounts and the join that loads a payment are parameters.
pub mod Once
mod Examples
use backend_go.Prelude.{
  ℕ, ◌+◌, Bool, true, false, not, ◌&&◌, ◌||◌, Option, none, some, List, [], ◌∷◌, ◌++◌, Text, codes,
  text_eq, trim_space, to_lower, find, any, length, ◌==◌, if◌then◌else◌, Result, ok, err,
}
use backend_go.Float.{Float64}
use backend_go.Ids
use backend_go.Payment.Link.{is_blank}
use backend_go.Database.{Session, pool_exec, pool_query}
use backend_go.Store.{update_where}

pub record EmailAttachment : Type 0 where
  pub filename : Text
  pub content_type : Text
  pub content : Text

pub record EmailMessage : Type 0 where
  pub sender : Text
  pub reply_to : Text
  pub recipients : List Text
  pub subject : Text
  pub text : Text
  pub html : Text
  pub attachments : List EmailAttachment

-- the fields of events.Envelope that are read
pub record Envelope : Type 0 where
  pub id : Text
  pub event_type : Text
  pub merchant : Text
  pub payload : Text

pub record InvoiceEventData (F : Type 0) : Type 0 where
  pub intent : Text
  pub object_key : Text
  pub amount : F
  pub currency : Text

pub record PaymentEmailContext (F : Type 0) : Type 0 where
  pub intent : Text
  pub merchant : Text
  pub merchant_email : Text
  pub customer_email : Text
  pub link_title : Text
  pub currency : Text
  pub expected : F
  pub received : F
  pub tx_hash : Text
  pub invoice_object : Text

pub data NotificationStatus : Type 0 where
  pending sent failed : NotificationStatus

-- a row of platform.email_notifications, UNIQUE (event_id, template, recipient)
pub record Notification : Type 0 where
  pub event : Text
  pub event_type : Text
  pub merchant : Option Text
  pub template : Text
  pub recipient : Text
  pub status : NotificationStatus
  pub attempts : ℕ
  pub last_error : Option Text
  pub provider_message : Option Text

-- a message that was handed to the sender, with what it was reserved for
pub record Handed : Type 0 where
  pub event : Text
  pub template : Text
  pub recipient : Text
  pub message : EmailMessage

pub record MailWorld : Type 0 where
  pub session : Session (List Notification)
  pub handed : List Handed

pub record MailSetup (F : Type 0) : Type 0 where
  pub sender : Text
  pub reply_to : Text
  pub send : List Handed → EmailMessage → Result Text Text
  pub decode : Text → Option Envelope
  pub user_data : Text → Option (Text × Text)
  pub user_email : Text → Option Text
  pub invoice_data : Text → Option (InvoiceEventData F)
  pub payment_data : Text → Option Text
  -- none for no row
  pub load : Text → Option (PaymentEmailContext F)
  pub object_bytes : Text → Option (Text × Text)
  pub base_name : Text → Text
  pub format8 : F → Text

abbrev pub is_for : Text → Text → Text → Notification → Bool
is_for event template recipient n =
    text_eq n.event event && (text_eq n.template template && text_eq n.recipient recipient)

-- INSERT … ON CONFLICT (event_id, template, recipient) DO NOTHING
abbrev pub insert_notification : Notification → List Notification → List Notification
insert_notification n rows =
    if any (is_for n.event n.template n.recipient) rows then rows else rows ++ n ∷ []

-- whether the insert succeeded, and whether it wrote a row
unfoldable pub reserve_notification :
    Envelope → Text → Text → Session (List Notification) → Option Bool × Session (List Notification)
reserve_notification env template recipient s =
    let n : Notification = record {
      event = env.id;
      event_type = env.event_type;
      merchant = Ids.parse (trim_space env.merchant);
      template = template;
      recipient = recipient;
      status = NotificationStatus.pending;
      attempts = 0;
      last_error = none;
      provider_message = none;
    } in
    let (done, s1) = pool_exec (insert_notification n) s in
    (if done then some (not (any (is_for env.id template recipient) s.db)) else none, s1)

abbrev pub mark_notification_sent :
    Text → Text → Text → Text → Session (List Notification) → Session (List Notification)
mark_notification_sent event template recipient message s =
    (pool_exec
      (update_where (is_for event template recipient) (λ n. record n {
        status = NotificationStatus.sent;
        provider_message = some message;
        attempts = n.attempts + 1;
        last_error = none;
      }))
      s).1

abbrev pub mark_notification_failed :
    Text → Text → Text → Text → Session (List Notification) → Session (List Notification)
mark_notification_failed event template recipient error s =
    (pool_exec
      (update_where (is_for event template recipient) (λ n. record n {
        status = NotificationStatus.failed;
        last_error = some error;
        attempts = n.attempts + 1;
      }))
      s).1

abbrev pub add_email : Text → List Text → List Text
add_email value seen =
    let email = to_lower (trim_space value) in
    if text_eq email [] then seen else if any (text_eq email) seen then seen else seen ++ email ∷ []

abbrev pub unique_from : List Text → List Text → List Text
unique_from seen [] = seen
unique_from seen (value ∷ values) = unique_from (add_email value seen) values

unfoldable pub unique_emails : List Text → List Text
unique_emails values = unique_from [] values

abbrev pub value_or_default : Text → Text → Text
value_or_default v fallback = if is_blank v then fallback else trim_space v

abbrev pub or_empty : Option Text → Text
or_empty none = []
or_empty (some s) = s

abbrev pub email_event_supported : Text → Bool
email_event_supported event_type = any (text_eq (trim_space event_type)) (
    codes "user.signed_up"
    ∷ (codes "invoice.created"
        ∷ (codes "payment.confirmed" ∷ (codes "payment.expired" ∷ (codes "payment.failed" ∷ [])))))

module _ {F : Type 0} (fl : Float64 F) (c : MailSetup F) where
  abbrev pub settle :
      Envelope
      → Text
      → Text
      → Result Text Text
      → Session (List Notification)
      → Session (List Notification)
  settle env template recipient (err e) s = mark_notification_failed env.id template recipient e s
  settle env template recipient (ok message) s =
      mark_notification_sent env.id template recipient message s

  -- a recipient whose notification is reserved
  unfoldable pub send_reserved : Envelope → Text → Text → EmailMessage → MailWorld → MailWorld
  send_reserved env template recipient message w =
      let entry : Handed = record {
        event = env.id;
        template = template;
        recipient = recipient;
        message = message;
      } in
      record w {
        session = settle env template recipient (c.send w.handed message) w.session;
        handed = w.handed ++ entry ∷ [];
      }

  abbrev pub send_if :
      Option Bool → Envelope → Text → Text → EmailMessage → MailWorld → Bool × MailWorld
  send_if none env template recipient message w = (false, w)
  send_if (some true) env template recipient message w =
      (true, send_reserved env template recipient message w)
  send_if (some false) env template recipient message w = (true, w)

  -- the message to one recipient; the loop goes on unless the reservation failed
  unfoldable pub dispatch_to : Envelope → Text → Text → EmailMessage → MailWorld → Bool × MailWorld
  unfolding send_reserved reserve_notification
  dispatch_to env template recipient message w =
      let (reserved, s) = reserve_notification env template recipient w.session in
      send_if reserved env template recipient message (record w { session = s })

  abbrev pub message_to : Text → Text → Text → List EmailAttachment → Text → EmailMessage
  message_to subject text html attachments recipient = record {
    sender = c.sender;
    reply_to = c.reply_to;
    recipients = recipient ∷ [];
    subject = subject;
    text = text;
    html = html;
    attachments = attachments;
  }

  unfoldable pub dispatch :
      Envelope → Text → List Text → (Text → EmailMessage) → MailWorld → Bool × MailWorld
  unfolding dispatch_to
  dispatch env template [] message w = (true, w)
  dispatch env template (recipient ∷ recipients) message w =
      let (go_on, w') = dispatch_to env template recipient (message recipient) w in
      let rest = dispatch env template recipients message w' in if go_on then rest else (false, w')

  abbrev pub query : MailWorld → Bool × MailWorld
  query w = let (found, s) = pool_query w.session in (found, record w { session = s })

  abbrev pub empty_context : PaymentEmailContext F
  empty_context = record {
    intent = [];
    merchant = [];
    merchant_email = [];
    customer_email = [];
    link_title = [];
    currency = [];
    expected = fl.zero;
    received = fl.zero;
    tx_hash = [];
    invoice_object = [];
  }

  -- loadPaymentContext, once its query has succeeded
  abbrev pub context_of : Option (PaymentEmailContext F) → PaymentEmailContext F
  context_of none = empty_context
  context_of (some info) = record info {
    currency = if is_blank info.currency then codes "USD" else info.currency;
  }

  abbrev pub recipients_of : PaymentEmailContext F → List Text
  recipients_of info = unique_emails (info.customer_email ∷ (info.merchant_email ∷ []))

  abbrev pub load_invoice_attachment : Text → List EmailAttachment
  load_invoice_attachment object_key =
      if is_blank object_key then [] else elim (c.object_bytes object_key) [
        | none ↦ []
        | some (content, content_type) ↦
            record {
              filename =
                  if is_blank (c.base_name object_key)
                  then codes "receipt.pdf"
                  else c.base_name object_key;
              content_type = content_type;
              content = content;
            }
            ∷ []
      ]

  abbrev pub amount_for_invoice : F → F → F
  amount_for_invoice amount fallback = if fl.lt fl.zero amount then amount else fallback

  abbrev pub welcome : Text → EmailMessage
  welcome =
      message_to (codes "Welcome to CPay")
        (codes "Welcome to CPay. Your account is ready and you can start creating payment links.")
        (codes
          "<p>Welcome to <strong>CPay</strong>.</p><p>Your account is ready and you can start creating payment links.</p>")
        []

  -- the address in the event, or else that of the user
  abbrev pub signup_email : Text → Text → Text
  signup_email user email =
      let email' = trim_space (to_lower email) in
      if text_eq email' [] && not (is_blank user)
      then or_empty (c.user_email (trim_space user))
      else email'

  abbrev pub sign_up : Option (Text × Text) → Envelope → MailWorld → Bool × MailWorld
  sign_up none env w = (false, w)
  sign_up (some (user, email)) env w =
      let to = signup_email user email in
      if text_eq to [] then (true, w) else dispatch env (codes "user_signup") (to ∷ []) welcome w

  unfoldable pub handle_user_signed_up : Envelope → MailWorld → Bool × MailWorld
  unfolding dispatch
  handle_user_signed_up env w = sign_up (c.user_data env.payload) env w

  -- what the three handlers of payments share: no intent, a failed query, no recipients
  unfoldable pub with_payment :
      Text
      → Envelope
      → Text
      → (PaymentEmailContext F → Text → EmailMessage)
      → MailWorld
      → Bool × MailWorld
  unfolding dispatch
  with_payment intent env template message w =
      let (loaded, w') = query w in
      let info = context_of (c.load (trim_space intent)) in
      let rest = dispatch env template (recipients_of info) (message info) w' in
      if is_blank intent then (true, w) else if loaded then rest else (false, w')

  abbrev pub invoice_message : InvoiceEventData F → PaymentEmailContext F → Text → EmailMessage
  invoice_message d info =
      let amount =
        c.format8 (amount_for_invoice d.amount info.received)
        ++ (codes " " ++ value_or_default d.currency info.currency) in
      message_to (codes "Invoice for " ++ info.link_title)
        (codes "Your invoice is ready.\nPayment intent: "
          ++ (info.intent ++ (codes "\nAmount: " ++ amount)))
        (codes "<p>Your invoice is ready.</p><p><strong>Payment intent:</strong> "
          ++ (info.intent ++ (codes "<br><strong>Amount:</strong> " ++ (amount ++ codes "</p>"))))
        (load_invoice_attachment
          (if is_blank d.object_key then info.invoice_object else trim_space d.object_key))

  abbrev pub invoice_created : Option (InvoiceEventData F) → Envelope → MailWorld → Bool × MailWorld
  invoice_created none env w = (false, w)
  invoice_created (some d) env w =
      with_payment (trim_space d.intent) env (codes "invoice_created") (invoice_message d) w

  unfoldable pub handle_invoice_created : Envelope → MailWorld → Bool × MailWorld
  unfolding with_payment
  handle_invoice_created env w = invoice_created (c.invoice_data env.payload) env w

  abbrev pub confirmed_message : PaymentEmailContext F → Text → EmailMessage
  confirmed_message info =
      let amount = c.format8 info.received ++ (codes " " ++ info.currency) in
      let transaction = value_or_default info.tx_hash (codes "-") in
      message_to (codes "Payment successful for " ++ info.link_title)
        (codes "Payment succeeded.\nAmount: "
          ++ (amount ++ (codes "\nTransaction: " ++ transaction)))
        (codes "<p>Payment succeeded.</p><p><strong>Amount:</strong> "
          ++ (amount
              ++ (codes "<br><strong>Transaction:</strong> " ++ (transaction ++ codes "</p>"))))
        (load_invoice_attachment info.invoice_object)

  abbrev pub failed_message : PaymentEmailContext F → Text → EmailMessage
  failed_message info =
      let expected = c.format8 info.expected ++ (codes " " ++ info.currency) in
      let received = c.format8 info.received ++ (codes " " ++ info.currency) in
      message_to (codes "Payment failed for " ++ info.link_title)
        (codes "Payment did not complete.\nExpected: "
          ++ (expected ++ (codes "\nReceived: " ++ received)))
        (codes "<p>Payment did not complete.</p><p><strong>Expected:</strong> "
          ++ (expected ++ (codes "<br><strong>Received:</strong> " ++ (received ++ codes "</p>"))))
        []

  abbrev pub payment_intent_id_from_event : Text → Text
  payment_intent_id_from_event payload = trim_space (or_empty (c.payment_data payload))

  unfoldable pub handle_payment_confirmed : Envelope → MailWorld → Bool × MailWorld
  unfolding with_payment
  handle_payment_confirmed env w =
      with_payment (payment_intent_id_from_event env.payload) env (codes "payment_success")
        confirmed_message w

  unfoldable pub handle_payment_failed : Envelope → MailWorld → Bool × MailWorld
  unfolding with_payment
  handle_payment_failed env w =
      with_payment (payment_intent_id_from_event env.payload) env (codes "payment_failed")
        failed_message w

  unfoldable pub handle_event : Envelope → MailWorld → Bool × MailWorld
  unfolding handle_user_signed_up handle_invoice_created handle_payment_confirmed
      handle_payment_failed
  handle_event env w =
      if not (email_event_supported env.event_type)
      then (true, w)
      else if text_eq env.event_type (codes "user.signed_up")
      then handle_user_signed_up env w
      else if text_eq env.event_type (codes "invoice.created")
      then handle_invoice_created env w
      else if text_eq env.event_type (codes "payment.confirmed")
      then handle_payment_confirmed env w
      else if text_eq env.event_type (codes "payment.expired")
          || text_eq env.event_type (codes "payment.failed")
      then handle_payment_failed env w
      else (true, w)

  abbrev pub handle_decoded : Option Envelope → MailWorld → Bool × MailWorld
  handle_decoded none w = (false, w)
  handle_decoded (some env) w = handle_event env w

  unfoldable pub handle_incoming : Text → MailWorld → Bool × MailWorld
  unfolding handle_event
  handle_incoming payload w = handle_decoded (c.decode payload) w

  -- the loop of dispatchOutboxEvents over the payloads that its query gives; errors are logged
  unfoldable pub handle_all : List Text → MailWorld → MailWorld
  unfolding handle_incoming
  handle_all [] w = w
  handle_all (payload ∷ payloads) w = handle_all payloads (handle_incoming payload w).1
