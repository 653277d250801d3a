-- ===== src/EventBus/Owners.antt =====
-- Who holds a channel: every channel in a list of subscribers is the open channel of exactly one
-- subscription, which names the list's key.
use godelayq.Prelude.{
  has_num, ℕ, zero, suc, ◌≡◌, ◌≢◌, refl, sym, ap, ◌∙◌, ◌⊎◌, inl, inr, List, [], ◌∷◌, ◌++◌, true,
  false, none, some, String, arith, length, get_elem?, set, if_pos, if_neg, string_discrete,
  Bool-cases, ◌==◌,
}
use godelayq.Dict
use godelayq.Dict.{Dict}
use godelayq.Dict.Keys.{Distinct, insert-Distinct}
use godelayq.EventBus.{
  Channel, EventSubscription, EventBus, members, is_in, add_keys, fresh_channel, subscribe,
}

pub get_elem?-set_self {ℓ} :
    {A : Type ℓ} (xs : List A) (i : ℕ) (v : A) {x : A}
    → get_elem? xs i ≡ some x
    → get_elem? (set xs i v) i ≡ some v
get_elem?-set_self [] i v e = absurd (cc)
get_elem?-set_self (x ∷ xs) zero v e = refl
get_elem?-set_self (x ∷ xs) (suc i) v e = get_elem?-set_self xs i v e

pub get_elem?-set_ne {ℓ} :
    {A : Type ℓ} (xs : List A) (i j : ℕ) (v : A) → i ≢ j → get_elem? (set xs i v) j ≡ get_elem? xs j
get_elem?-set_ne [] i j v n = refl
get_elem?-set_ne (x ∷ xs) zero zero v n = absurd (n refl)
get_elem?-set_ne (x ∷ xs) zero (suc j) v n = refl
get_elem?-set_ne (x ∷ xs) (suc i) zero v n = refl
get_elem?-set_ne (x ∷ xs) (suc i) (suc j) v n = get_elem?-set_ne xs i j v (λ e. n (ap suc e))

get_elem?-append {ℓ} :
    {A : Type ℓ} (xs ys : List A) (i : ℕ) {x : A}
    → get_elem? xs i ≡ some x
    → get_elem? (xs ++ ys) i ≡ some x
get_elem?-append [] ys i e = absurd (cc)
get_elem?-append (x ∷ xs) ys zero e = e
get_elem?-append (x ∷ xs) ys (suc i) e = get_elem?-append xs ys i e

get_elem?-last {ℓ} :
    {A : Type ℓ} (xs : List A) (x : A) → get_elem? (xs ++ x ∷ []) (length xs) ≡ some x
get_elem?-last [] x = refl
get_elem?-last (y ∷ xs) x = get_elem?-last xs x

get_elem?-past {ℓ} : {A : Type ℓ} (xs : List A) {x : A} → get_elem? xs (length xs) ≢ some x
get_elem?-past [] e = cc
get_elem?-past (y ∷ xs) e = get_elem?-past xs e

members-add :
    (keys : List String) (ch : ℕ) (m : Dict (List ℕ)) (j : String) (n : ℕ)
    → has_num n (members (Dict.lookup j (add_keys keys ch m))) ≡ true
    → (has_num n (members (Dict.lookup j m)) ≡ true) ⊎ ((n ≡ ch) × (is_in j keys ≡ true))
unfolding add_keys
members-add [] ch m j n h = inl h
members-add (key ∷ keys) ch m j n h =
    let l = members (Dict.lookup key m) ++ ch ∷ [] in
    elim (members-add keys ch (Dict.insert key l m) j n h) [
      | inr (p, q) ↦ inr (
        p,
        elim (string_discrete key j) [
          | yes e ↦ if_pos (string_discrete key j) e _ _
          | no e ↦ if_neg (string_discrete key j) e _ _ ∙ q
        ],
      )
      | inl p ↦ elim (Dict.insert_cases key j l m) [
        | inr q ↦ inl (rw q.1 at p)
        | inl q ↦ elim (has_num-snoc n ch (members (Dict.lookup key m)) (rw q.1 at p)) [
          | inl old ↦ inl (rw (← q.0) old)
          | inr new ↦ inr (new, if_pos (string_discrete key j) q.0 _ _)
        ]
      ]
    ]
  where
    has_num-snoc :
        (n ch : ℕ) (l : List ℕ) → has_num n (l ++ ch ∷ []) ≡ true → (has_num n l ≡ true) ⊎ (n ≡ ch)
    has_num-snoc n ch [] h = inr (ground arith)
    has_num-snoc n ch (x ∷ l) h = elim (Bool-cases (n == x)) [
      | inl e ↦ inl (rw e)
      | inr e ↦ elim (has_num-snoc n ch l (rw e at h)) [
        | inl old ↦ inl (rw e old)
        | inr new ↦ inr new
      ]
    ]

module _ {E : Type 0} where
  abbrev pub IsOpen : List (Channel E) → ℕ → Type 0
  IsOpen chs ch = (c : Channel E) × (get_elem? chs ch ≡ some c) × (c.closed ≡ false)

  pub record Owner (b : EventBus E) (key : String) (ch : ℕ) : Type 0 where
    pub id : String
    pub sub : EventSubscription
    pub at : Dict.lookup id b.subscriptions ≡ some sub
    pub same : sub.ch ≡ ch
    pub listed : is_in key sub.event_types ≡ true

  pub record Owned (b : EventBus E) : Type 0 where
    pub distinct : Distinct b.subscriptions
    pub owner :
        (key : String) (ch : ℕ)
        → has_num ch (members (Dict.lookup key b.subscribers)) ≡ true
        → Owner b key ch
    pub live :
        (id : String) (sub : EventSubscription)
        → Dict.lookup id b.subscriptions ≡ some sub
        → IsOpen b.channels sub.ch
    pub apart :
        (i j : String) (s t : EventSubscription)
        → Dict.lookup i b.subscriptions ≡ some s
        → Dict.lookup j b.subscriptions ≡ some t
        → s.ch ≡ t.ch
        → i ≡ j

  IsOpen-new :
      (chs : List (Channel E)) (ch : ℕ) → IsOpen chs ch → IsOpen (chs ++ fresh_channel ∷ []) ch
  IsOpen-new chs ch (c, at, o) = (c, get_elem?-append chs _ ch at, o)

  -- Subscribe under an id that is not taken gives a new channel to the subscription, and the
  -- subscribers own their channels again.
  pub subscribe-Owned :
      (b : EventBus E) (id : String) (event_types : List String)
      → Owned b
      → Dict.lookup id b.subscriptions ≡ none
      → Owned (subscribe b id event_types)
  unfolding subscribe
  subscribe-Owned b id event_types v fresh =
      let new : EventSubscription = record { ch = length b.channels; event_types = event_types } in
      let not_old =
        λ (j : String) (s : EventSubscription) (e : Dict.lookup j b.subscriptions ≡ some s)
            (same : s.ch ≡ length b.channels).
          let (c, at, o) = v.live j s e in
          get_elem?-past b.channels (ap (get_elem? b.channels) (sym same) ∙ at) in
      record {
        distinct = insert-Distinct id new b.subscriptions v.distinct;
        owner = λ key ch h.
            elim (members-add event_types (length b.channels) b.subscribers key ch h) [
              | inl old ↦
                  let o = v.owner key ch old in
                  record {
                    id = o.id;
                    sub = o.sub;
                    at = elim (Dict.insert_cases id o.id new b.subscriptions) [
                      | inl p ↦
                          let f = o.at in
                          absurd (cc (fresh, f, ap (λ k. Dict.lookup k b.subscriptions) p.0))
                      | inr p ↦ p.1 ∙ o.at
                    ];
                    same = o.same;
                    listed = o.listed;
                  }
              | inr (is_new, listed) ↦ record {
                id = id;
                sub = new;
                at = Dict.lookup-insert_self id new b.subscriptions;
                same = sym is_new;
                listed = listed;
              }
            ];
        live = λ j s e. elim (Dict.insert_cases id j new b.subscriptions) [
          | inl p ↦
              let same : new ≡ s = cc (p.1, e) in
              rw (← same) (fresh_channel, get_elem?-last b.channels fresh_channel, refl)
          | inr p ↦ IsOpen-new b.channels s.ch (v.live j s (sym p.1 ∙ e))
        ];
        apart = λ i j s t e f same. elim (Dict.insert_cases id i new b.subscriptions) [
          | inl p ↦
              let s_is : new ≡ s = cc (p.1, e) in
              elim (Dict.insert_cases id j new b.subscriptions) [
                | inl q ↦ sym p.0 ∙ q.0
                | inr q ↦ absurd (
                    not_old j t (sym q.1 ∙ f)
                      (sym same ∙ ap (λ (x : EventSubscription). x.ch) (sym s_is)))
              ]
          | inr p ↦ elim (Dict.insert_cases id j new b.subscriptions) [
            | inl q ↦
                let t_is : new ≡ t = cc (q.1, f) in
                absurd (
                  not_old i s (sym p.1 ∙ e)
                    (same ∙ ap (λ (x : EventSubscription). x.ch) (sym t_is)))
            | inr q ↦ v.apart i j s t (sym p.1 ∙ e) (sym q.1 ∙ f) same
          ]
        ];
      }
