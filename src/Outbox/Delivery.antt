-- ===== src/Outbox/Delivery.antt =====
-- What an event marked as published says of the bus, under every script of faults and every bus.
use backend_go.Prelude.{
  ℕ, Bool, true, false, ◌||◌, List, [], ◌∷◌, ◌++◌, Text, any, All, ◌≡◌, sym, ◌∙◌, inl, inr, arith,
  Bool-cases, Option-cases, ◌==◌, ==_iff, or_true_right,
}
use backend_go.Database.{begin, query, commit}
use backend_go.Database.Laws.{
  exec-keeps, commit-keeps, db-begin, work-begin, db-query, work-query, db-exec, db-rollback,
}
use backend_go.Outbox.{
  EventStatus, OutboxEvent, Message, Rows, Relay, Bus, due_events, message_of, mark_failed,
  mark_published, relay_event, relay_events, relay_process,
}

abbrev pub on_bus : ℕ → List Message → Bool
on_bus id bus = any (λ (m : Message). m.event == id) bus

abbrev pub is_published : EventStatus → Bool
is_published EventStatus.published = true
is_published _ = false

-- an event that is marked as published was so before (`was`), or is on the bus
abbrev pub IsDelivered : (ℕ → Bool) → List Message → OutboxEvent → Type 0
IsDelivered was bus r = is_published r.status ≡ true → (was r.id || on_bus r.id bus) ≡ true

any-append :
    (p : Message → Bool) (bus : List Message) (m : Message)
    → any p (bus ++ m ∷ []) ≡ (any p bus || p m)
any-append p [] m = ground arith
any-append p (x ∷ bus) m = ground (arith, any-append p bus m)

weaken : (a b c : Bool) → (a || b) ≡ true → (a || (b || c)) ≡ true
weaken a b c h = ground arith

module _ (was : ℕ → Bool) where
  abbrev AllDelivered : List Message → Rows → Type 0
  AllDelivered bus rows = All (IsDelivered was bus) rows

  AllDelivered-mono :
      (bus : List Message) (m : Message) (rows : Rows)
      → AllDelivered bus rows
      → AllDelivered (bus ++ m ∷ []) rows
  AllDelivered-mono bus m [] h = tt
  AllDelivered-mono bus m (r ∷ rows) h = (
    λ p.
        rw (any-append (λ (x : Message). x.event == r.id) bus m)
          (weaken (was r.id) (on_bus r.id bus) (m.event == r.id) (h.0 p)),
    AllDelivered-mono bus m rows h.1,
  )

  mark_failed-AllDelivered :
      (now : ℕ) (event : OutboxEvent) (error : Text) (bus : List Message) (rows : Rows)
      → AllDelivered bus rows
      → AllDelivered bus (mark_failed now event error rows)
  mark_failed-AllDelivered now event error bus [] h = tt
  mark_failed-AllDelivered now event error bus (r ∷ rows) h = (
    elim (Bool-cases (r.id == event.id)) [ inl e ↦ rw e (λ p. cc) | inr e ↦ rw e h.0 ],
    mark_failed-AllDelivered now event error bus rows h.1,
  )

  mark_published-AllDelivered :
      (event : OutboxEvent) (bus : List Message) (rows : Rows)
      → AllDelivered bus rows
      → AllDelivered (bus ++ message_of event ∷ []) (mark_published event rows)
  mark_published-AllDelivered event bus [] h = tt
  mark_published-AllDelivered event bus (r ∷ rows) h = (
    elim (Bool-cases (r.id == event.id)) [
      | inl e ↦ rw e (λ p. or_true_right (was r.id) (on_bus r.id (bus ++ message_of event ∷ [])) (
          any-append (λ (x : Message). x.event == r.id) bus (message_of event)
          ∙ or_true_right (on_bus r.id bus) (event.id == r.id)
              ((==_iff event.id r.id).1 (sym ((==_iff r.id event.id).0 e)))))
      | inr e ↦ rw e (AllDelivered-mono bus (message_of event) (r ∷ []) (h.0, tt)).0
    ],
    mark_published-AllDelivered event bus rows h.1,
  )

  -- the committed rows and the transaction's rows
  record Both (w : Relay) : Type 0 where
    committed : AllDelivered w.bus w.session.db
    view : AllDelivered w.bus w.session.work

  relay_event-Both :
      (b : Bus) (event : OutboxEvent) (w : Relay) → Both w → Both (relay_event b event w).1
  unfolding relay_event
  relay_event-Both b event w h = elim (Option-cases (b.publish w.bus (message_of event))) [
    | inr (error, e) ↦
        rw (e, relay_event)
          (record {
            committed = rw (db-exec (mark_failed b.now event error) w.session) h.committed;
            view =
                exec-keeps (AllDelivered w.bus) (mark_failed b.now event error) w.session
                  (mark_failed-AllDelivered b.now event error w.bus w.session.work) h.view;
          })
    | inl e ↦
        let bus' = w.bus ++ message_of event ∷ [] in
        rw (e, relay_event)
          (record {
            committed =
                rw (db-exec (mark_published event) w.session)
                  (AllDelivered-mono w.bus (message_of event) w.session.db h.committed);
            view =
                exec-keeps (AllDelivered bus') (mark_published event) w.session
                  (λ k. mark_published-AllDelivered event w.bus w.session.work h.view)
                  (AllDelivered-mono w.bus (message_of event) w.session.work h.view);
          })
  ]

  relay_events-Both :
      (b : Bus) (events : Rows) (w : Relay) → Both w → Both (relay_events b events w).1
  unfolding relay_events
  relay_events-Both b [] w h = h
  relay_events-Both b (event ∷ events) w h =
      let k = relay_event-Both b event w h in
      elim (Bool-cases (relay_event b event w).0) [
        | inl e ↦ rw e (relay_events-Both b events (relay_event b event w).1 k)
        | inr e ↦ rw e k
      ]

  -- Whatever statements fail and whatever the bus answers, a pass of the relay marks an event as
  -- published only if it was handed to the bus.
  pub relay_process-delivers :
      (b : Bus) (w : Relay)
      → All (IsDelivered was w.bus) w.session.db
      → All (IsDelivered was (relay_process b w).bus) (relay_process b w).session.db
  unfolding relay_process
  relay_process-delivers b w h =
      let s1 = (begin w.session).1 in
      let s2 = (query s1).1 in
      let r = relay_events b (due_events b.now s2.work) (record w { session = s2 }) in
      let d2 : AllDelivered w.bus s2.db = rw (db-query s1, db-begin w.session) h in
      elim (Bool-cases (begin w.session).0) [
        | inr x ↦ rw x (rw (db-begin w.session) h)
        | inl x ↦
            let both =
              relay_events-Both b (due_events b.now s2.work) (record w { session = s2 })
                (record { committed = d2; view = rw (work-query s1, work-begin w.session x) h }) in
            rw x (elim (Bool-cases (query s1).0) [
              | inr q ↦ rw q (rw (db-rollback s2) d2)
              | inl q ↦ rw q (elim (Bool-cases r.0) [
                | inl g ↦ rw g (
                    rw (db-rollback (commit r.1.session).1)
                      (commit-keeps (AllDelivered r.1.bus) r.1.session both.committed both.view))
                | inr g ↦ rw g (rw (db-rollback r.1.session) both.committed)
              ])
            ])
      ]
