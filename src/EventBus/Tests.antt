-- ===== src/EventBus/Tests.antt =====
-- The theorems on the bus at a bus with one subscription.
use godelayq.Prelude.{
  ◌≡◌, refl, [], ◌∷◌, none, some, String, false, Returns, Returns-at, string_discrete,
}
use godelayq.Dict
use godelayq.EventBus.{
  Kinded, EventBus, new_event_bus, subscribe, subscribe_new, unsubscribe, publish, add_keys,
  next_id_loop,
}
use godelayq.EventBus.Owners.{Owned}
use godelayq.EventBus.Unsubscribe.{Unsubscribed, unsubscribe_lem}
use godelayq.EventBus.Publish.{Published, publish_lem}
use godelayq.EventBus.Ids.{subscribe_new_lem}

-- An event that is its type.
instance abbrev text_event : Kinded String
text_event = record { type_name = λ e. e }

abbrev quiet : EventBus String
quiet = new_event_bus 2

quiet-Owned : Owned quiet
unfolding Dict.lookup
quiet-Owned = record {
  distinct = tt;
  owner = λ key ch h. absurd (cc);
  live = λ id sub e. absurd (cc);
  apart = λ i j s t e. absurd (cc);
}

subscribe_new_lem_example :
    Returns
      (λ r.
        (Dict.lookup r.1 quiet.subscriptions ≡ none)
        × (r.0 ≡ subscribe quiet r.1 ("job.failed" ∷ "job.paused" ∷ []))
        × Owned r.0)
      (subscribe_new quiet "42" ("job.failed" ∷ "job.paused" ∷ []))
subscribe_new_lem_example =
    subscribe_new_lem quiet "42" ("job.failed" ∷ "job.paused" ∷ []) quiet-Owned

abbrev watched : EventBus String
watched = record {
  subscribers = ("job.failed", 0 ∷ []) ∷ ("job.paused", 0 ∷ []) ∷ [];
  subscriptions = ("42", record { ch = 0; event_types = "job.failed" ∷ "job.paused" ∷ [] }) ∷ [];
  buffer_size = 2;
  channels = record { buffer = []; closed = false } ∷ [];
}

subscribed : subscribe_new quiet "42" ("job.failed" ∷ "job.paused" ∷ []) ≡ some (watched, "42")
unfolding subscribe_new next_id_loop subscribe add_keys Dict.lookup Dict.insert string_discrete
subscribed = refl

watched-Owned : Owned watched
watched-Owned = (Returns-at subscribe_new_lem_example subscribed).2

publish_lem_example : Returns (Published watched "job.paused") (publish watched "job.paused")
publish_lem_example = publish_lem watched "job.paused" watched-Owned

unsubscribe_lem_example :
    Returns
      (Unsubscribed watched "42" ("job.failed" ∷ []))
      (unsubscribe watched "42" ("job.failed" ∷ []))
unsubscribe_lem_example = unsubscribe_lem watched "42" ("job.failed" ∷ []) watched-Owned
