-- ===== src/Webhook/Retries.antt =====
-- How often a delivery is tried.
use backend_go.Prelude.{
  ℕ, ◌+◌, ◌*◌, ◌≤◌, ◌<◌, Bool, true, false, not, some, List, [], ◌∷◌, ◌++◌, Text, length, ◌≡◌, ◌⊎◌,
  ◌==◌,
}
use backend_go.Database.{Session}
use backend_go.Webhook.{
  Endpoint, Delivery, DeliveryStatus, WebhookTables, Post, Net, Dispatcher, Response, unreachable,
  answered, is_success, is_scheduled, retries_or_default,
}

abbrev pub is_failure : Response → Bool
is_failure (unreachable error) = true
is_failure (answered code body) = not (is_success code)

-- a failure is rescheduled, or ends the delivery
abbrev Failed : ℕ → ℕ → Delivery → Delivery → Type 0
Failed now max_retries d d' =
    (d'.id ≡ d.id)
    × (d'.endpoint ≡ d.endpoint)
    × (((d.attempt < max_retries)
          × (d'.status ≡ DeliveryStatus.scheduled)
          × (d'.attempt ≡ d.attempt + 1)
          × (d'.next_retry_at ≡ now + (d.attempt + 1) * (d.attempt + 1)))
        ⊎ ((max_retries ≤ d.attempt) × (d'.status ≡ DeliveryStatus.failed)))

-- the deliveries beside one: none is scheduled, and none has its id
abbrev pub IsBeside : ℕ → Delivery → Type 0
IsBeside id x = (is_scheduled x.status ≡ false) × ((x.id == id) ≡ false)

module _ (s : Session WebhookTables) (es : List Endpoint) (before after : List Delivery)
    (e : Endpoint) (max_retries : ℕ) where
  -- a dispatcher without faults, with a delivery among others and what it has posted
  abbrev pub dispatcher : Delivery → List Post → Dispatcher
  dispatcher d posts = record {
    session = record s {
      db = record { endpoints = es; deliveries = before ++ d ∷ after };
      script = [];
    };
    posts = posts;
  }

  -- the endpoint's secret can be read, and whatever is posted fails
  abbrev pub IsDown : Net → Type 0
  IsDown net =
      (secret : Text) × (net.decrypt e.secret_encrypted ≡ some secret)
      × ((earlier : List Post) (post : Post) → is_failure (net.respond earlier post) ≡ true)
      × (retries_or_default net e.max_retries ≡ max_retries)

  abbrev post_of : Delivery → Text → Post
  post_of d secret = record { delivery = d.id; url = e.url; secret = secret; attempt = d.attempt }

  -- each tick finds the endpoint down, and comes when a delivery that has been rescheduled by
  -- every tick before is due
  abbrev pub IsDownAtAll : ℕ → ℕ → List Net → Type 0
  IsDownAtAll due attempt [] = Unit {0}
  IsDownAtAll due attempt (net ∷ nets) =
      IsDown net
      × (due ≤ net.now)
      × IsDownAtAll (net.now + (attempt + 1) * (attempt + 1)) (attempt + 1) nets

  -- after that many ticks, from a delivery and what had been posted
  abbrev pub Tried : ℕ → Delivery → List Post → Dispatcher → Type 0
  Tried ticks d posts w =
      (d' : Delivery) × (posts' : List Post) × (w ≡ dispatcher d' posts')
      × (d'.id ≡ d.id)
      × (((d.attempt + ticks ≤ max_retries)
            × (d'.status ≡ DeliveryStatus.scheduled)
            × (d'.attempt ≡ d.attempt + ticks)
            × (length posts' ≡ length posts + ticks))
          ⊎ ((max_retries < d.attempt + ticks)
              × (d'.status ≡ DeliveryStatus.failed)
              × (length posts' + d.attempt ≡ length posts + max_retries + 1)))
