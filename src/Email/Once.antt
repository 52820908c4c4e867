-- ===== src/Email/Once.antt =====
-- The messages that internal/platform/workers/email_dispatcher.go hands to the sender.
use backend_go.Prelude.{
  ◌+◌, ◌≤◌, Bool, true, false, not, ◌&&◌, ◌||◌, Option, none, some, List, [], ◌∷◌, ◌++◌, Text,
  codes, text_eq, text_eq→eq, trim_space, any, count, ◌≡◌, refl, sym, ap, ◌∙◌, arith, Bool-cases,
  inl, inr, if◌then◌else◌, Result, ok, err,
}
use backend_go.Float.{Float64}
use backend_go.Ids
use backend_go.Payment.Link.{is_blank}
use backend_go.Database.{Session, pool_exec, pool_query}
use backend_go.Database.Laws.{db-pool_exec, db-pool_exec_cases, db-pool_query}
use backend_go.Store.{update_where}
use backend_go.Email.{
  EmailMessage, Envelope, Notification, NotificationStatus, Handed, MailWorld, MailSetup,
  PaymentEmailContext, is_for, insert_notification, reserve_notification, email_event_supported,
  settle, send_reserved, dispatch_to, dispatch, welcome, signup_email, handle_user_signed_up,
  sign_up, send_if, invoice_created, InvoiceEventData, with_payment, recipients_of, context_of,
  invoice_message, confirmed_message, failed_message, payment_intent_id_from_event,
  handle_invoice_created, handle_payment_confirmed, handle_payment_failed, handle_event,
  handle_decoded, handle_incoming, handle_all,
}

abbrev pub is_sent_for : Text → Text → Text → Handed → Bool
is_sent_for event template recipient h =
    text_eq h.event event && (text_eq h.template template && text_eq h.recipient recipient)

-- no two messages are for the same event, template and recipient, and each has its notification
pub record IsOnce (w : MailWorld) : Type 0 where
  pub once : (e t r : Text) → count (is_sent_for e t r) w.handed ≤ 1
  pub noted :
      (e t r : Text)
      → any (is_for e t r) w.session.db ≡ false
      → count (is_sent_for e t r) w.handed ≡ 0

any-update_where :
    {A : Type 0} (q p : A → Bool) (f : A → A) (xs : List A)
    → ((x : A) → q (f x) ≡ q x)
    → any q (update_where p f xs) ≡ any q xs
any-update_where q p f [] same = refl
any-update_where q p f (x ∷ xs) same = elim (Bool-cases (p x)) [
  | inl e ↦ rw e (rw (same x, any-update_where q p f xs same) refl)
  | inr e ↦ rw e (rw (any-update_where q p f xs same) refl)
]

any-snoc :
    {A : Type 0} (q : A → Bool) (xs : List A) (y : A) → any q (xs ++ y ∷ []) ≡ (any q xs || q y)
any-snoc q [] y = ground arith
any-snoc q (x ∷ xs) y = rw (any-snoc q xs y) (ground arith)

count-snoc :
    {A : Type 0} (q : A → Bool) (xs : List A) (y : A)
    → count q (xs ++ y ∷ []) ≡ count q xs + (if q y then 1 else 0)
count-snoc q [] y = ground arith
count-snoc q (x ∷ xs) y = ground (arith, count-snoc q xs y)

-- an insert removes no row
any-insert_notification :
    (q : Notification → Bool) (n : Notification) (rows : List Notification)
    → any q (insert_notification n rows) ≡ false
    → any q rows ≡ false
any-insert_notification q n rows h =
    elim (Bool-cases (any (is_for n.event n.template n.recipient) rows)) [
      | inl e ↦ rw e at h
      | inr e ↦ ground (arith, sym (any-snoc q rows n) ∙ (rw e at h))
    ]

and_true_both : (a b : Bool) → (a && b) ≡ true → (a ≡ true) × (b ≡ true)
and_true_both a b h = ground arith

or_false_both : (a b : Bool) → (a || b) ≡ false → (a ≡ false) × (b ≡ false)
or_false_both a b h = ground arith

abbrev is_key : Text → Text → Text → Text → Text → Text → Bool
is_key e t r e' t' r' = text_eq e e' && (text_eq t t' && text_eq r r')

is_for_same :
    (e t r e' t' r' : Text) (rows : List Notification)
    → is_key e t r e' t' r' ≡ true
    → any (is_for e t r) rows ≡ any (is_for e' t' r') rows
is_for_same e t r e' t' r' rows k =
    let (k1, k23) = and_true_both (text_eq e e') _ k in
    let (k2, k3) = and_true_both (text_eq t t') _ k23 in
    ap (λ x. any (is_for x t r) rows) (text_eq→eq e e' k1)
    ∙ (ap (λ x. any (is_for e' x r) rows) (text_eq→eq t t' k2)
        ∙ ap (λ x. any (is_for e' t' x) rows) (text_eq→eq r r' k3))

module _ {F : Type 0} (fl : Float64 F) (c : MailSetup F) where
  any-settle :
      (env : Envelope) (template recipient : Text) (answer : Result Text Text)
      (s : Session (List Notification)) (e t r : Text)
      → any (is_for e t r) (settle fl c env template recipient answer s).db
        ≡ any (is_for e t r) s.db
  any-settle env template recipient (err m) s e t r = elim (db-pool_exec_cases _ s) [
    | inl q ↦ ap (any (is_for e t r)) q
    | inr q ↦
        ap (any (is_for e t r)) q
        ∙ any-update_where (is_for e t r) (is_for env.id template recipient) _ s.db (λ n. refl)
  ]
  any-settle env template recipient (ok m) s e t r = elim (db-pool_exec_cases _ s) [
    | inl q ↦ ap (any (is_for e t r)) q
    | inr q ↦
        ap (any (is_for e t r)) q
        ∙ any-update_where (is_for e t r) (is_for env.id template recipient) _ s.db (λ n. refl)
  ]

  -- messages that were not sent leave the notifications of those that were
  IsOnce-more :
      (w : MailWorld) (s : Session (List Notification))
      → ((e t r : Text) → any (is_for e t r) s.db ≡ false → any (is_for e t r) w.session.db ≡ false)
      → IsOnce w
      → IsOnce (record w { session = s })
  IsOnce-more w s less h = record { once = h.once; noted = λ e t r q. h.noted e t r (less e t r q) }

  send_reserved-IsOnce :
      (env : Envelope) (template recipient : Text) (message : EmailMessage) (n : Notification)
      (w : MailWorld) (s : Session (List Notification))
      → n.event ≡ env.id
      → n.template ≡ template
      → n.recipient ≡ recipient
      → any (is_for env.id template recipient) w.session.db ≡ false
      → s.db ≡ w.session.db ++ n ∷ []
      → IsOnce w
      → IsOnce (send_reserved fl c env template recipient message (record w { session = s }))
  unfolding send_reserved
  send_reserved-IsOnce env template recipient message n w s h1 h2 h3 new added h = record {
    once = λ e t r.
        let counted = count-snoc (is_sent_for e t r) w.handed (record {
          event = env.id;
          template = template;
          recipient = recipient;
          message = message;
        }) in
        elim (Bool-cases (is_key env.id template recipient e t r)) [
          | inl k ↦ omega (
            arith,
            counted,
            rw k at counted,
            h.noted e t r (sym (is_for_same env.id template recipient e t r w.session.db k) ∙ new),
          )
          | inr k ↦ omega (arith, rw k at counted, h.once e t r)
        ];
    noted = λ e t r q.
        let counted = count-snoc (is_sent_for e t r) w.handed (record {
          event = env.id;
          template = template;
          recipient = recipient;
          message = message;
        }) in
        let rows : (any (is_for e t r) w.session.db || is_for e t r n) ≡ false =
          sym (any-snoc (is_for e t r) w.session.db n)
          ∙ (sym (ap (any (is_for e t r)) added)
              ∙ (sym (any-settle env template recipient (c.send w.handed message) s e t r) ∙ q)) in
        let (before, other) = or_false_both _ _ rows in
        let k : is_key env.id template recipient e t r ≡ false = rw⁻¹ (h1, h2, h3) other in
        omega (arith, rw k at counted, h.noted e t r before);
  }

  abbrev new_notification : Envelope → Text → Text → Notification
  new_notification env template recipient = record {
    event = env.id;
    event_type = env.event_type;
    merchant = Ids.parse (trim_space env.merchant);
    template = template;
    recipient = recipient;
    status = NotificationStatus.pending;
    attempts = 0;
    last_error = none;
    provider_message = none;
  }

  -- the notifications after the insert have those of before
  reserved_more :
      (n : Notification) (s : Session (List Notification)) (e t r : Text)
      → any (is_for e t r) (pool_exec (insert_notification n) s).1.db ≡ false
      → any (is_for e t r) s.db ≡ false
  reserved_more n s e t r q = elim (db-pool_exec_cases (insert_notification n) s) [
    | inl same ↦ sym (ap (any (is_for e t r)) same) ∙ q
    | inr added ↦
        any-insert_notification (is_for e t r) n s.db (sym (ap (any (is_for e t r)) added) ∙ q)
  ]

  send_if-IsOnce :
      (env : Envelope) (template recipient : Text) (message : EmailMessage) (w : MailWorld)
      (s : Session (List Notification)) (done there : Bool)
      → (done ≡ true
          → there ≡ false
          → s.db ≡ w.session.db ++ new_notification env template recipient ∷ [])
      → any (is_for env.id template recipient) w.session.db ≡ there
      → IsOnce (record w { session = s })
      → IsOnce w
      → IsOnce
          (send_if fl c
            (if done then some (not there) else none)
            env
            template
            recipient
            message
            (record w { session = s })).1
  send_if-IsOnce env template recipient message w s false there added e kept h = kept
  send_if-IsOnce env template recipient message w s true true added e kept h = kept
  send_if-IsOnce env template recipient message w s true false added e kept h =
      send_reserved-IsOnce env template recipient message (new_notification env template recipient)
        w s refl refl refl e (added refl refl) h

  dispatch_to-IsOnce :
      (env : Envelope) (template recipient : Text) (message : EmailMessage) (w : MailWorld)
      → IsOnce w
      → IsOnce (dispatch_to fl c env template recipient message w).1
  unfolding dispatch_to reserve_notification
  dispatch_to-IsOnce env template recipient message w h =
      let n = new_notification env template recipient in
      let s = (pool_exec (insert_notification n) w.session).1 in
      send_if-IsOnce env template recipient message w s
        (pool_exec (insert_notification n) w.session).0
        (any (is_for env.id template recipient) w.session.db)
        (λ done new. db-pool_exec (insert_notification n) w.session done ∙ rw new refl) refl
        (IsOnce-more w s (reserved_more n w.session) h) h

  dispatch-IsOnce :
      (env : Envelope) (template : Text) (recipients : List Text) (message : Text → EmailMessage)
      (w : MailWorld)
      → IsOnce w
      → IsOnce (dispatch fl c env template recipients message w).1
  unfolding dispatch
  dispatch-IsOnce env template [] message w h = h
  dispatch-IsOnce env template (recipient ∷ recipients) message w h =
      let h' = dispatch_to-IsOnce env template recipient (message recipient) w h in
      let w' = (dispatch_to fl c env template recipient (message recipient) w).1 in
      elim (Bool-cases (dispatch_to fl c env template recipient (message recipient) w).0) [
        | inl on ↦ rw on (dispatch-IsOnce env template recipients message w' h')
        | inr off ↦ rw off h'
      ]

  with_payment-IsOnce :
      (intent : Text) (env : Envelope) (template : Text)
      (message : PaymentEmailContext F → Text → EmailMessage) (w : MailWorld)
      → IsOnce w
      → IsOnce (with_payment fl c intent env template message w).1
  unfolding with_payment
  with_payment-IsOnce intent env template message w h =
      let w' = record w { session = (pool_query w.session).1 } in
      let h' =
        IsOnce-more w (pool_query w.session).1
          (λ e t r q. sym (ap (any (is_for e t r)) (db-pool_query w.session)) ∙ q) h in
      let info = context_of fl c (c.load (trim_space intent)) in
      elim (Bool-cases (is_blank intent)) [
        | inl e ↦ rw e h
        | inr e ↦ elim (Bool-cases (pool_query w.session).0) [
          | inl q ↦
              rw (e, q)
                (dispatch-IsOnce env template (recipients_of fl c info) (message info) w' h')
          | inr q ↦ rw (e, q) h'
        ]
      ]

  if_keeps :
      (b : Bool) (x y : Bool × MailWorld) → IsOnce x.1 → IsOnce y.1 → IsOnce (if b then x else y).1
  if_keeps true x y h k = h
  if_keeps false x y h k = k

  sign_up-IsOnce :
      (found : Option (Text × Text)) (env : Envelope) (w : MailWorld)
      → IsOnce w
      → IsOnce (sign_up fl c found env w).1
  sign_up-IsOnce none env w h = h
  sign_up-IsOnce (some (user, email)) env w h =
      let to = signup_email fl c user email in
      if_keeps (text_eq to []) (true, w)
        (dispatch fl c env (codes "user_signup") (to ∷ []) (welcome fl c) w) h
        (dispatch-IsOnce env (codes "user_signup") (to ∷ []) (welcome fl c) w h)

  invoice_created-IsOnce :
      (found : Option (InvoiceEventData F)) (env : Envelope) (w : MailWorld)
      → IsOnce w
      → IsOnce (invoice_created fl c found env w).1
  invoice_created-IsOnce none env w h = h
  invoice_created-IsOnce (some d) env w h =
      with_payment-IsOnce (trim_space d.intent) env (codes "invoice_created")
        (invoice_message fl c d) w h

  handle_event-IsOnce :
      (env : Envelope) (w : MailWorld) → IsOnce w → IsOnce (handle_event fl c env w).1
  unfolding handle_event handle_payment_confirmed handle_payment_failed handle_user_signed_up
      handle_invoice_created
  handle_event-IsOnce env w h =
      let is = λ (t : Text). text_eq env.event_type t in
      let intent = payment_intent_id_from_event fl c env.payload in
      let done : Bool × MailWorld = (true, w) in
      let failed = with_payment fl c intent env (codes "payment_failed") (failed_message fl c) w in
      let paid =
        with_payment fl c intent env (codes "payment_success") (confirmed_message fl c) w in
      let invoice = invoice_created fl c (c.invoice_data env.payload) env w in
      let user = sign_up fl c (c.user_data env.payload) env w in
      let on_failed =
        if is (codes "payment.expired") || is (codes "payment.failed") then failed else done in
      let on_paid = if is (codes "payment.confirmed") then paid else on_failed in
      let on_invoice = if is (codes "invoice.created") then invoice else on_paid in
      let on_user = if is (codes "user.signed_up") then user else on_invoice in
      if_keeps (not (email_event_supported env.event_type)) done on_user h (
        if_keeps (is (codes "user.signed_up")) user on_invoice
          (sign_up-IsOnce (c.user_data env.payload) env w h)
          (if_keeps (is (codes "invoice.created")) invoice on_paid
            (invoice_created-IsOnce (c.invoice_data env.payload) env w h)
            (if_keeps (is (codes "payment.confirmed")) paid on_failed
              (with_payment-IsOnce intent env (codes "payment_success") (confirmed_message fl c) w
                h)
              (if_keeps (is (codes "payment.expired") || is (codes "payment.failed")) failed done
                (with_payment-IsOnce intent env (codes "payment_failed") (failed_message fl c) w h)
                h))))

  handle_decoded-IsOnce :
      (env : Option Envelope) (w : MailWorld) → IsOnce w → IsOnce (handle_decoded fl c env w).1
  handle_decoded-IsOnce none w h = h
  handle_decoded-IsOnce (some env) w h = handle_event-IsOnce env w h

  -- Whatever statements fail and whatever the sender answers: if no two messages are for the same
  -- event, template and recipient, and every message has a notification, then that is so after any
  -- payloads have been handled, however often an event is among them.
  pub handle_all-IsOnce :
      (payloads : List Text) (w : MailWorld) → IsOnce w → IsOnce (handle_all fl c payloads w)
  unfolding handle_all handle_incoming
  handle_all-IsOnce [] w h = h
  handle_all-IsOnce (payload ∷ payloads) w h =
      handle_all-IsOnce payloads (handle_decoded fl c (c.decode payload) w).1
        (handle_decoded-IsOnce (c.decode payload) w h)
