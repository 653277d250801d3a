-- ===== src/EventBus/Unsubscribe.antt =====
-- Unsubscribe: what is left of a subscription, and who holds the channels after it.
use godelayq.Prelude.{
  has_num, ℕ, ◌≡◌, ◌≢◌, refl, sym, ap, ◌∙◌, inl, inr, List, [], ◌∷◌, Bool, true, false, ◌||◌, some,
  String, arith, set, if_neg, string_discrete, Bool-cases, Option-cases, Returns, returns,
  Returns-if, Returns-bind,
}
use godelayq.Dict
use godelayq.Dict.{Dict}
use godelayq.Dict.Keys.{insert-Distinct, delete-Distinct}
use godelayq.EventBus.{
  Channel, EventSubscription, EventBus, members, is_in, is_empty, drop_keys, close_channel,
  unsubscribe,
}
use godelayq.EventBus.Owners.{get_elem?-set_ne, IsOpen, Owner, Owned}
use godelayq.EventBus.Drops.{taken, drop_keys-Dropped, drop_keys_remaining}

module _ {E : Type 0} where
  -- A closed channel, seen from any other.
  IsOpen-close :
      (chs : List (Channel E)) (ch other : ℕ) (c : Channel E)
      → ch ≢ other
      → IsOpen chs other
      → IsOpen (set chs ch c) other
  IsOpen-close chs ch other c ne (d, at, o) = (d, get_elem?-set_ne chs ch other c ne ∙ at, o)

  module _ (b : EventBus E) (v : Owned b) (id : String) (sub : EventSubscription)
      (at : Dict.lookup id b.subscriptions ≡ some sub) (remove_all : Bool)
      (remove_set : List String) where
    left : Dict (List ℕ) × List String
    left = drop_keys remove_all remove_set sub.ch sub.event_types b.subscribers

    -- An owner that is another subscription stays one.
    other-Owner :
        (b' : EventBus E) (key : String) (ch : ℕ) (o : Owner b key ch)
        → o.id ≢ id
        → ((j : String) → j ≢ id → Dict.lookup j b'.subscriptions ≡ Dict.lookup j b.subscriptions)
        → Owner b' key ch
    other-Owner b' key ch o ne keep = record {
      id = o.id;
      sub = o.sub;
      at = keep o.id ne ∙ o.at;
      same = o.same;
      listed = o.listed;
    }

    own_sub : (key : String) (ch : ℕ) (o : Owner b key ch) → o.id ≡ id → o.sub ≡ sub
    own_sub key ch o e =
        let both : some o.sub ≡ some sub =
          sym o.at ∙ ap (λ k. Dict.lookup k b.subscriptions) e ∙ at in
        cc

    -- The subscription keeps some keys.
    kept_on : Owned (record b {
      subscribers = left.0;
      subscriptions = Dict.insert id (record sub { event_types = left.1 }) b.subscriptions;
    })
    unfolding left
    kept_on =
        let dropped =
          drop_keys-Dropped remove_all remove_set sub.ch sub.event_types b.subscribers in
        let sub' : EventSubscription = record sub { event_types = left.1 } in
        record {
          distinct = insert-Distinct id sub' b.subscriptions v.distinct;
          owner = λ key ch h.
              let o = v.owner key ch (dropped.kept key ch h) in
              elim (string_discrete o.id id) [
                | no ne ↦ other-Owner _ key ch o ne (λ j other.
                    Dict.lookup-insert id j sub' b.subscriptions
                    ∙ if_neg (string_discrete id j) (λ e. other (sym e)) _ _)
                | yes e ↦
                    let mine = own_sub key ch o e in
                    let is_ch : sub.ch ≡ ch =
                      ap (λ (s : EventSubscription). s.ch) (sym mine) ∙ o.same in
                    let in_keys : is_in key sub.event_types ≡ true =
                      ap (λ (s : EventSubscription). is_in key s.event_types) (sym mine)
                      ∙ o.listed in
                    record {
                      id = id;
                      sub = sub';
                      at = Dict.lookup-insert_self id sub' b.subscriptions;
                      same = is_ch;
                      listed = elim (Bool-cases (taken remove_all remove_set key)) [
                        | inl t ↦
                            let g = dropped.gone key in_keys t in
                            absurd (
                              cc (
                                h,
                                g,
                                ap (λ n. has_num n (members (Dict.lookup key left.0))) is_ch,
                              ))
                        | inr f ↦
                            drop_keys_remaining remove_all remove_set sub.ch sub.event_types
                              b.subscribers key in_keys f
                      ];
                    }
              ];
          live = λ j s e. elim (Dict.insert_cases id j sub' b.subscriptions) [
            | inl p ↦ let same : sub' ≡ s = cc (p.1, e) in rw (← same) (v.live id sub at)
            | inr p ↦ v.live j s (sym p.1 ∙ e)
          ];
          apart = λ i j s t e f same. elim (Dict.insert_cases id i sub' b.subscriptions) [
            | inl p ↦
                let s_is : sub' ≡ s = cc (p.1, e) in
                elim (Dict.insert_cases id j sub' b.subscriptions) [
                  | inl q ↦ sym p.0 ∙ q.0
                  | inr q ↦
                      sym p.0
                      ∙ v.apart id j sub t at (sym q.1 ∙ f)
                          (ap (λ (x : EventSubscription). x.ch) s_is ∙ same)
                ]
            | inr p ↦ elim (Dict.insert_cases id j sub' b.subscriptions) [
              | inl q ↦
                  let t_is : sub' ≡ t = cc (q.1, f) in
                  v.apart i id s sub (sym p.1 ∙ e) at
                    (same ∙ ap (λ (x : EventSubscription). x.ch) (sym t_is))
                  ∙ q.0
              | inr q ↦ v.apart i j s t (sym p.1 ∙ e) (sym q.1 ∙ f) same
            ]
          ];
        }

    -- The subscription ends: every key of it was taken.
    ended :
        (c : Channel E)
        → ((key : String)
            → is_in key sub.event_types ≡ true
            → taken remove_all remove_set key ≡ true)
        → Owned (record b {
          subscribers = left.0;
          subscriptions = Dict.delete id b.subscriptions;
          channels = set b.channels sub.ch c;
        })
    unfolding left
    ended c all =
        let dropped =
          drop_keys-Dropped remove_all remove_set sub.ch sub.event_types b.subscribers in
        record {
          distinct = delete-Distinct id b.subscriptions v.distinct;
          owner = λ key ch h.
              let o = v.owner key ch (dropped.kept key ch h) in
              elim (string_discrete o.id id) [
                | no ne ↦ other-Owner _ key ch o ne (λ j other.
                    Dict.lookup-delete id j b.subscriptions
                    ∙ if_neg (string_discrete id j) (λ e. other (sym e)) _ _)
                | yes e ↦
                    let mine = own_sub key ch o e in
                    let is_ch : sub.ch ≡ ch =
                      ap (λ (s : EventSubscription). s.ch) (sym mine) ∙ o.same in
                    let in_keys : is_in key sub.event_types ≡ true =
                      ap (λ (s : EventSubscription). is_in key s.event_types) (sym mine)
                      ∙ o.listed in
                    let g = dropped.gone key in_keys (all key in_keys) in
                    absurd (cc (h, g, ap (λ n. has_num n (members (Dict.lookup key left.0))) is_ch))
              ];
          live = λ j s e. elim (Dict.delete_cases id j b.subscriptions) [
            | inl p ↦ absurd (cc (p.1, e))
            | inr p ↦
                let e' = sym p.1 ∙ e in
                IsOpen-close b.channels sub.ch s.ch c (λ same. p.0 (v.apart id j sub s at e' same))
                  (v.live j s e')
          ];
          apart = λ i j s t e f same. elim (Dict.delete_cases id i b.subscriptions) [
            | inl p ↦ absurd (cc (p.1, e))
            | inr p ↦ elim (Dict.delete_cases id j b.subscriptions) [
              | inl q ↦ absurd (cc (q.1, f))
              | inr q ↦ v.apart i j s t (sym p.1 ∙ e) (sym q.1 ∙ f) same
            ]
          ];
        }

    close_channel_lem :
        Returns
          (λ chs. (c : Channel E) × (chs ≡ set b.channels sub.ch c) × (c.closed ≡ true))
          (close_channel b.channels sub.ch)
    unfolding close_channel
    close_channel_lem =
        let (c, e, o) = v.live id sub at in
        rw e (rw o (returns (record c { closed = true }, refl, refl)))

    -- A key that was taken has no trace of the subscription's channel.
    off :
        (key : String)
        → taken remove_all remove_set key ≡ true
        → has_num sub.ch (members (Dict.lookup key left.0)) ≡ false
    unfolding left
    off key t =
        let dropped =
          drop_keys-Dropped remove_all remove_set sub.ch sub.event_types b.subscribers in
        elim (Bool-cases (has_num sub.ch (members (Dict.lookup key left.0)))) [
          | inr f ↦ f
          | inl h ↦
              let o = v.owner key sub.ch (dropped.kept key sub.ch h) in
              let e = v.apart o.id id o.sub sub o.at at o.same in
              let in_keys : is_in key sub.event_types ≡ true =
                ap (λ (s : EventSubscription). is_in key s.event_types)
                  (sym (own_sub key sub.ch o e))
                ∙ o.listed in
              dropped.gone key in_keys t
        ]

    all_taken :
        (remove_all || is_empty left.1) ≡ true
        → (key : String) → is_in key sub.event_types ≡ true
        → taken remove_all remove_set key ≡ true
    unfolding left
    all_taken h key i = elim (Bool-cases (taken remove_all remove_set key)) [
      | inl t ↦ t
      | inr f ↦
          let r =
            drop_keys_remaining remove_all remove_set sub.ch sub.event_types b.subscribers key i
              f in
          elim (Bool-cases (is_empty left.1)) [
            | inl e ↦ absurd (no_keys left.1 e r)
            | inr e ↦ absurd (ground arith)
          ]
    ]
      where
        no_keys : (l : List String) → is_empty l ≡ true → is_in key l ≡ true → ⊥
        no_keys [] p q = cc
        no_keys (x ∷ l) p q = cc

  -- The bus after Unsubscribe: no list of a type that was taken off has the subscription's channel.
  pub record Unsubscribed (b : EventBus E) (id : String) (event_types : List String)
      (b' : EventBus E) : Type 0 where
    pub owned : Owned b'
    pub off_types :
        (sub : EventSubscription) (key : String)
        → Dict.lookup id b.subscriptions ≡ some sub
        → taken (is_empty event_types) event_types key ≡ true
        → has_num sub.ch (members (Dict.lookup key b'.subscribers)) ≡ false

  -- On a bus whose subscribers own their channels Unsubscribe returns, so that it closes no channel
  -- twice. The subscribers own their channels again, and the subscription is off the types given, or
  -- off all where none is given.
  pub unsubscribe_lem :
      (b : EventBus E) (id : String) (event_types : List String)
      → Owned b
      → Returns (Unsubscribed b id event_types) (unsubscribe b id event_types)
  unfolding unsubscribe left
  unsubscribe_lem b id event_types v = elim (Option-cases (Dict.lookup id b.subscriptions)) [
    | inl missing ↦
        rw (missing, unsubscribe)
          (returns (record { owned = v; off_types = λ s key e t. absurd (cc (missing, e)) }))
    | inr (sub, at) ↦
        rw (at, unsubscribe)
          (let all = is_empty event_types in
            Returns-if (all || is_empty (left b v id sub at all event_types).1)
              (λ ends.
                Returns-bind (close_channel_lem b v id sub at all event_types)
                  λ chs (c, same, shut). returns (record {
                    owned = rw same (
                        ended b v id sub at all event_types c
                          (all_taken b v id sub at all event_types ends));
                    off_types = λ s key e t.
                        let is : sub ≡ s = cc (at, e) in
                        rw (← is) (off b v id sub at all event_types key t);
                  }))
              (λ stays. returns (record {
                owned = kept_on b v id sub at all event_types;
                off_types = λ s key e t.
                    let is : sub ≡ s = cc (at, e) in
                    rw (← is) (off b v id sub at all event_types key t);
              })))
  ]
