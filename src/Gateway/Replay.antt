-- ===== src/Gateway/Replay.antt =====
-- A request that is repeated with its idempotency key (internal/gateway/server.go).
use backend_go.Prelude.{
  ℕ, Bool, true, false, none, some, List, [], ◌∷◌, ◌++◌, Text, text_eq, text_eq_refl, find, any,
  ◌≡◌, refl, sym, ap, ◌∙◌, arith, Bool-cases, inl, inr, Result, ok,
}
use backend_go.Database.{pool_exec, pool_query}
use backend_go.Database.Laws.{db-pool_query, db-pool_exec}
use backend_go.Gateway.{
  IdempotencyKey, Response, json, stored, GatewayWorld, GatewaySetup, is_key, insert_key, row_of,
  with_idempotency,
}

is_key_own : (row : IdempotencyKey) → is_key row.merchant row.endpoint row.key row ≡ true
is_key_own row =
    rw (text_eq_refl row.merchant, text_eq_refl row.endpoint, text_eq_refl row.key) refl

find-any : {A : Type 0} (p : A → Bool) (xs : List A) → find p xs ≡ none → any p xs ≡ false
find-any p [] h = refl
find-any p (x ∷ xs) h = elim (Bool-cases (p x)) [
  | inl e ↦ absurd (ground (arith, rw e at h))
  | inr e ↦ rw e (find-any p xs (rw e at h))
]

find-snoc :
    {A : Type 0} (p : A → Bool) (xs : List A) (y : A)
    → find p xs ≡ none
    → p y ≡ true
    → find p (xs ++ y ∷ []) ≡ some y
find-snoc p [] y h q = rw q refl
find-snoc p (x ∷ xs) y h q = elim (Bool-cases (p x)) [
  | inl e ↦ absurd (ground (arith, rw e at h))
  | inr e ↦ rw e (find-snoc p xs y (rw e at h) q)
]

module _ {P E W : Type 0} (c : GatewaySetup P) (merchant endpoint key : Text) where
  -- a request that was not seen runs its handler and is saved
  with_idempotency-first :
      (fn : W → Result E (ℕ × P) × W) (w : GatewayWorld W) (status : ℕ) (payload : P) (body : Text)
      → text_eq key [] ≡ false
      → (pool_query w.session).0 ≡ true
      → find (is_key merchant endpoint key) w.session.db ≡ none
      → (fn w.outer).0 ≡ ok (status, payload)
      → c.marshal payload ≡ some body
      → with_idempotency c merchant endpoint key fn w ≡ (
        json status payload,
        record {
          session =
              (pool_exec
                (insert_key (row_of c merchant endpoint key status body))
                (pool_query w.session).1).1;
          outer = (fn w.outer).1;
        },
      )
  unfolding with_idempotency
  with_idempotency-first fn w status payload body keyed queried new answered serialized =
      rw (keyed, queried, db-pool_query w.session, new, answered, serialized) refl

  with_idempotency-second :
      (fn : W → Result E (ℕ × P) × W) (w : GatewayWorld W) (row : IdempotencyKey)
      → text_eq key [] ≡ false
      → (pool_query w.session).0 ≡ true
      → find (is_key merchant endpoint key) w.session.db ≡ some row
      → with_idempotency c merchant endpoint key fn w
        ≡ (stored row.status row.body, record w { session = (pool_query w.session).1 })
  unfolding with_idempotency
  with_idempotency-second fn w row keyed queried seen =
      rw (keyed, queried, db-pool_query w.session, seen) refl

  -- A request with a key that was not seen, whose handler answers and whose row is saved, answers
  -- the same when it is repeated, whatever handler it then has: the saved status and body are
  -- written, and the handler is not run again.
  pub with_idempotency-replays :
      (fn fn' : W → Result E (ℕ × P) × W) (w w' : GatewayWorld W) (status : ℕ) (payload : P)
      (body : Text)
      → text_eq key [] ≡ false
      → (pool_query w.session).0 ≡ true
      → find (is_key merchant endpoint key) w.session.db ≡ none
      → (fn w.outer).0 ≡ ok (status, payload)
      → c.marshal payload ≡ some body
      → (pool_exec
          (insert_key (row_of c merchant endpoint key status body))
          (pool_query w.session).1).0
        ≡ true
      → (with_idempotency c merchant endpoint key fn w).1 ≡ w'
      → (pool_query w'.session).0 ≡ true
      → ((with_idempotency c merchant endpoint key fn w).0 ≡ json status payload)
        × ((with_idempotency c merchant endpoint key fn' w').0 ≡ stored status (c.jsonb body))
        × ((with_idempotency c merchant endpoint key fn' w').1.outer ≡ (fn w.outer).1)
  with_idempotency-replays fn fn' w w' status payload body keyed queried new answered serialized
        inserted after queried' =
      let first =
        with_idempotency-first fn w status payload body keyed queried new answered serialized in
      let row = row_of c merchant endpoint key status body in
      let w1 = ap (λ (o : Response P E × GatewayWorld W). o.1) (sym first) ∙ after in
      let before : (pool_query w.session).1.db ≡ w.session.db = db-pool_query w.session in
      let no_row : any (is_key merchant endpoint key) (pool_query w.session).1.db ≡ false =
        rw before (find-any (is_key merchant endpoint key) w.session.db new) in
      let saved : w'.session.db ≡ (pool_query w.session).1.db ++ row ∷ [] =
        ap (λ (v : GatewayWorld W). v.session.db) (sym w1)
        ∙ (db-pool_exec (insert_key row) (pool_query w.session).1 inserted ∙ rw no_row refl) in
      let seen : find (is_key merchant endpoint key) w'.session.db ≡ some row =
        rw (saved, before)
          (find-snoc (is_key merchant endpoint key) w.session.db row new (is_key_own row)) in
      let second = with_idempotency-second fn' w' row keyed queried' seen in
      (
        ap (λ (o : Response P E × GatewayWorld W). o.0) first,
        ap (λ (o : Response P E × GatewayWorld W). o.0) second,
        ap (λ (o : Response P E × GatewayWorld W). o.1.outer) second
            ∙ ap (λ (v : GatewayWorld W). v.outer) (sym w1),
      )
