-- ===== src/EventBus/Ids.antt =====
-- The id of a new subscription.
use Prim.Native.String.{◌++◌ as str_append, count}
use text.Mathlib.TextLemmas.{length-append as str_length-append}
use godelayq.Prelude.{
  ℕ, zero, suc, ◌+◌, ◌≤◌, ◌<◌, ◌≡◌, refl, ap, inl, inr, List, [], ◌∷◌, none, some, String, arith,
  string_discrete, if_neg, Option-cases, Returns, returns, Returns-bind,
}
use godelayq.Dict
use godelayq.Dict.{Dict}
use godelayq.EventBus.{EventBus, next_id_loop, longest, subscribe, subscribe_new}
use godelayq.EventBus.Owners.{Owned, subscribe-Owned}

count-le-longest {ℓ} :
    {V : Type ℓ} (k : String) (v : V) (m : Dict V) → Dict.lookup k m ≡ some v → count k ≤ longest m
unfolding Dict.lookup
count-le-longest k v [] e = absurd (cc)
count-le-longest k v ((j, w) ∷ m) e = elim (string_discrete j k) [
  | yes same ↦ let c = ap count same in ground arith
  | no other ↦
      let ih = count-le-longest k v m (rw (if_neg (string_discrete j k) other) at e) in ground arith
]

next_id_lem {ℓ} :
    {V : Type ℓ} (rounds : ℕ) (taken : Dict V) (id : String)
    → longest taken < count id + rounds
    → Returns (λ found. Dict.lookup found taken ≡ none) (next_id_loop (suc rounds) taken id)
unfolding next_id_loop
next_id_lem zero taken id h = elim (Option-cases (Dict.lookup id taken)) [
  | inl free ↦ rw (free, next_id_loop) (returns free)
  | inr (v, used) ↦ absurd (omega (arith, count-le-longest id v taken used))
]
next_id_lem (suc rounds) taken id h = elim (Option-cases (Dict.lookup id taken)) [
  | inl free ↦ rw (free, next_id_loop) (returns free)
  | inr (v, used) ↦
      rw (used, next_id_loop)
        (next_id_lem rounds taken (str_append id "-sub")
          (omega (arith, str_length-append id "-sub")))
]

module _ {E : Type 0} where
  -- On a bus whose subscribers own their channels Subscribe ends its search for an id, within as many
  -- rounds as the longest id is long, plus two: the id was not taken, and the subscribers own their
  -- channels again.
  pub subscribe_new_lem :
      (b : EventBus E) (generated : String) (event_types : List String)
      → Owned b
      → Returns
          (λ r.
            (Dict.lookup r.1 b.subscriptions ≡ none)
            × (r.0 ≡ subscribe b r.1 event_types)
            × Owned r.0)
          (subscribe_new b generated event_types)
  unfolding subscribe_new
  subscribe_new_lem b generated event_types v =
      Returns-bind
        (next_id_lem (suc (longest b.subscriptions)) b.subscriptions generated (omega arith))
        λ id free. returns (free, refl, subscribe-Owned b id event_types v free)
