-- ===== src/EventBus/Close.antt =====
-- Close: each channel is closed once.
use godelayq.Prelude.{
  has_num, ℕ, ◌≡◌, refl, ap, sym, ◌∙◌, ◌⊎◌, inl, inr, List, [], ◌∷◌, true, some, String, arith,
  ◌==◌, get_elem?, set, Bool-cases, Returns, returns, Returns-bind, Returns-map,
}
use godelayq.Dict
use godelayq.Dict.{Dict}
use godelayq.Dict.Keys.{Distinct, Entry, here, there, Entry-lookup, lookup-Entry}
use godelayq.EventBus.{Channel, EventSubscription, EventBus, close_channel, close_loop, close}
use godelayq.EventBus.Owners.{get_elem?-set_self, get_elem?-set_ne, IsOpen, Owned}

module _ {E : Type 0} where
  abbrev pub IsShut : List (Channel E) → ℕ → Type 0
  IsShut chs ch = (c : Channel E) × (get_elem? chs ch ≡ some c) × (c.closed ≡ true)

  -- The channel of each subscription is open, or was closed by the loop.
  abbrev Ready : Dict EventSubscription → List ℕ → List (Channel E) → Type 0
  Ready [] done chs = Unit {0}
  Ready ((id, sub) ∷ subs) done chs =
      ((has_num sub.ch done ≡ true) ⊎ IsOpen chs sub.ch) × Ready subs done chs

  abbrev AllShut : Dict EventSubscription → List (Channel E) → Type 0
  AllShut [] chs = Unit {0}
  AllShut ((id, sub) ∷ subs) chs = IsShut chs sub.ch × AllShut subs chs

  abbrev DoneShut : List ℕ → List (Channel E) → Type 0
  DoneShut done chs = (n : ℕ) → has_num n done ≡ true → IsShut chs n

  Ready-close :
      (subs : Dict EventSubscription) (done : List ℕ) (chs : List (Channel E)) (ch : ℕ)
      (c : Channel E)
      → Ready subs done chs
      → Ready subs (ch ∷ done) (set chs ch c)
  Ready-close [] done chs ch c r = tt
  Ready-close ((id, sub) ∷ subs) done chs ch c (first, rest) = (
    elim (Bool-cases (sub.ch == ch)) [
      | inl same ↦ inl (rw same)
      | inr other ↦ elim first [
        | inl d ↦ inl (rw other d)
        | inr (o, at, open_now) ↦
            inr (o, get_elem?-set_ne chs ch sub.ch c (λ e. ground arith) ∙ at, open_now)
      ]
    ],
    Ready-close subs done chs ch c rest,
  )

  DoneShut-close :
      (done : List ℕ) (chs : List (Channel E)) (ch : ℕ) (c : Channel E)
      → get_elem? chs ch ≡ some c
      → DoneShut done chs
      → DoneShut (ch ∷ done) (set chs ch (record c { closed = true }))
  DoneShut-close done chs ch c at d n h = elim (Bool-cases (n == ch)) [
    | inl same ↦
        let is : n ≡ ch = ground arith in
        (record c { closed = true }, ap (get_elem? _) is ∙ get_elem?-set_self chs ch _ at, refl)
    | inr other ↦
        let (o, at_n, shut) = d n (rw other at h) in
        (o, get_elem?-set_ne chs ch n _ (λ e. ground arith) ∙ at_n, shut)
  ]

  close_loop_lem :
      (subs : Dict EventSubscription) (done : List ℕ) (chs : List (Channel E))
      → Ready subs done chs
      → DoneShut done chs
      → Returns (λ chs'. DoneShut done chs' × AllShut subs chs') (close_loop subs done chs)
  unfolding close_loop close_channel
  close_loop_lem [] done chs r d = returns (d, tt)
  close_loop_lem ((id, sub) ∷ subs) done chs (first, rest) d =
      elim (Bool-cases (has_num sub.ch done)) [
        | inl already ↦ rw already (
            Returns-map (close_loop_lem subs done chs rest d)
              λ chs' q. (q.0, (q.0 sub.ch already, q.1)))
        | inr new ↦ rw new (elim first [
          | inl already ↦ absurd (cc)
          | inr (c, at, o) ↦
              rw (at, close_channel)
                (rw o (
                  Returns-map
                    (close_loop_lem subs (sub.ch ∷ done) _
                      (Ready-close subs done chs sub.ch (record c { closed = true }) rest)
                      (DoneShut-close done chs sub.ch c at d))
                    λ chs' q. (λ n h. q.0 n (ground arith), (q.0 sub.ch (ground arith), q.1))))
        ])
      ]

  Ready-start :
      (subs : Dict EventSubscription) (chs : List (Channel E))
      → Distinct subs
      → ((id : String) (sub : EventSubscription) → Entry id sub subs → IsOpen chs sub.ch)
      → Ready subs [] chs
  Ready-start [] chs d h = tt
  Ready-start ((id, sub) ∷ subs) chs d h =
      (inr (h id sub (here refl refl)), Ready-start subs chs d.1 λ i s e. h i s (there e))

  AllShut-Entry :
      {id : String} {sub : EventSubscription} {subs : Dict EventSubscription}
      (chs : List (Channel E))
      → AllShut subs chs
      → Entry id sub subs
      → IsShut chs sub.ch
  AllShut-Entry {sub} chs a (here {p} i s) =
      let (c, at, shut) = a.0 in
      (c, ap (λ (x : EventSubscription). get_elem? chs x.ch) (sym s) ∙ at, shut)
  AllShut-Entry chs a (there e) = AllShut-Entry chs a.1 e

  pub record Closed (b : EventBus E) (b' : EventBus E) : Type 0 where
    pub owned : Owned b'
    pub no_subscribers : b'.subscribers ≡ []
    pub no_subscriptions : b'.subscriptions ≡ []
    pub shut :
        (id : String) (sub : EventSubscription)
        → Dict.lookup id b.subscriptions ≡ some sub
        → IsShut b'.channels sub.ch

  -- Close on a bus whose subscribers own their channels returns, so that it closes no channel twice:
  -- the channel of each subscription is closed, and no subscriber or subscription is left.
  pub close_lem : (b : EventBus E) → Owned b → Returns (Closed b) (close b)
  unfolding close Dict.lookup
  close_lem b v =
      Returns-bind
        (close_loop_lem b.subscriptions [] b.channels
          (Ready-start b.subscriptions b.channels v.distinct
            λ id sub e. v.live id sub (Entry-lookup v.distinct e))
          λ n h. absurd (cc))
        λ chs q. returns (record {
          owned = record {
            distinct = tt;
            owner = λ key ch h. absurd (cc);
            live = λ id sub e. absurd (cc);
            apart = λ i j s t e. absurd (cc);
          };
          no_subscribers = refl;
          no_subscriptions = refl;
          shut = λ id sub e. AllShut-Entry chs q.1 (lookup-Entry id sub b.subscriptions e);
        })
