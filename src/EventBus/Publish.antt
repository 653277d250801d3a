-- ===== src/EventBus/Publish.antt =====
-- Publish: what each channel gets.
use mathlib.Core.List.{append_assoc, append-nil}
use godelayq.Prelude.{
  has_num, ℕ, zero, suc, ◌+◌, ◌-◌, ◌≡◌, ◌≢◌, refl, sym, ap, ◌∙◌, inl, inr, List, [], ◌∷◌, ◌++◌,
  true, false, some, String, arith, ltb, leb, ◌==◌, length, length-append, length-set, get_elem?,
  Bool-cases, Returns, returns, Returns-bind, Returns-map, if◌then◌else◌, subst,
}
use godelayq.Dict
use godelayq.EventBus.{Kinded, Channel, EventBus, members, send, send_all, publish}
use godelayq.EventBus.Owners.{get_elem?-set_self, get_elem?-set_ne, IsOpen, Owned}

-- How often a number stands in the list.
abbrev pub count : ℕ → List ℕ → ℕ
count n [] = 0
count n (x ∷ xs) = (if n == x then 1 else 0) + count n xs

abbrev pub replicate {ℓ} : {A : Type ℓ} → ℕ → A → List A
replicate zero x = []
replicate (suc k) x = x ∷ replicate k x

abbrev pub fewer : ℕ → ℕ → ℕ
fewer a b = if leb a b then a else b

module _ {E : Type 0} (cap : ℕ) (e : E) where
  -- The channel after `k` sends: copies of the event, as many as there was room for.
  abbrev pub receive : ℕ → Channel E → Channel E
  receive k c = record c { buffer = c.buffer ++ replicate (fewer k (cap - length c.buffer)) e }

  abbrev push : Channel E → Channel E
  push c = if ltb (length c.buffer) cap then record c { buffer = c.buffer ++ e ∷ [] } else c

  receive-zero : (c : Channel E) → receive zero c ≡ c
  receive-zero c =
      let none_more : fewer 0 (cap - length c.buffer) ≡ 0 = ground arith in
      ap (λ n. record c { buffer = c.buffer ++ replicate n e }) none_more
      ∙ ap (λ b. record c { buffer = b }) (append-nil c.buffer)

  receive-push : (k : ℕ) (c : Channel E) → receive k (push c) ≡ receive (suc k) c
  receive-push k c = elim (Bool-cases (ltb (length c.buffer) cap)) [
    | inl room ↦
        let len = length-append c.buffer (e ∷ []) in
        let one_less : fewer k (cap - length (c.buffer ++ e ∷ []))
            ≡ fewer (suc k) (cap - length c.buffer) - 1 =
          ground (arith, len) in
        let positive : fewer (suc k) (cap - length c.buffer)
            ≡ suc (fewer (suc k) (cap - length c.buffer) - 1) =
          ground arith in
        rw room (
          ap (λ b. record c { buffer = b })
            (append_assoc c.buffer (e ∷ []) _
              ∙ ap (λ n. c.buffer ++ e ∷ replicate n e) one_less
              ∙ ap (λ n. c.buffer ++ replicate n e) (sym positive)))
    | inr full ↦
        let same : fewer k (cap - length c.buffer) ≡ fewer (suc k) (cap - length c.buffer) =
          ground arith in
        rw full (ap (λ n. record c { buffer = c.buffer ++ replicate n e }) same)
  ]

  closed-push : (c : Channel E) → (push c).closed ≡ c.closed
  closed-push c = ground arith

  -- The channels after sends to each number of the list.
  abbrev Sent : List ℕ → List (Channel E) → List (Channel E) → Type 0
  Sent l chs chs' =
      (n : ℕ) (c : Channel E)
      → get_elem? chs n ≡ some c
      → get_elem? chs' n ≡ some (receive (count n l) c)

  abbrev AllOpen : List ℕ → List (Channel E) → Type 0
  AllOpen l chs = (n : ℕ) → has_num n l ≡ true → IsOpen chs n

  send_lem :
      (chs : List (Channel E)) (ch : ℕ) (c : Channel E)
      → get_elem? chs ch ≡ some c
      → c.closed ≡ false
      → Returns
          (λ chs'.
            (length chs' ≡ length chs)
            × ((n : ℕ) (d : Channel E)
                → get_elem? chs n ≡ some d
                → get_elem? chs' n ≡ some (if n == ch then push d else d)))
          (send cap e chs ch)
  unfolding send
  send_lem chs ch c at o = rw at (
      rw o (elim (Bool-cases (ltb (length c.buffer) cap)) [
        | inl room ↦ rw room (
            returns (
              length-set chs ch _,
              λ n d f. elim (Bool-cases (n == ch)) [
                | inl same ↦
                    let is : n ≡ ch = ground arith in
                    let eq : c ≡ d =
                      let g : get_elem? chs ch ≡ some d = ap (get_elem? chs) (sym is) ∙ f in cc in
                    rw same (
                      ap (get_elem? _) is
                      ∙ get_elem?-set_self chs ch _ at
                      ∙ rw (← eq) (rw (room, o)))
                | inr other ↦
                    let ne : ch ≢ n = λ q. ground arith in
                    rw other (get_elem?-set_ne chs ch n _ ne ∙ f)
              ],
            ))
        | inr full ↦ rw full (
            returns (
              refl,
              λ n d f. elim (Bool-cases (n == ch)) [
                | inl same ↦
                    let is : n ≡ ch = ground arith in
                    let eq : c ≡ d =
                      let g : get_elem? chs ch ≡ some d = ap (get_elem? chs) (sym is) ∙ f in cc in
                    rw same (f ∙ rw (← eq) (rw full))
                | inr other ↦ rw other f
              ],
            ))
      ]))

  IsOpen-sent :
      (chs chs' : List (Channel E)) (ch n : ℕ)
      → ((m : ℕ) (d : Channel E)
          → get_elem? chs m ≡ some d
          → get_elem? chs' m ≡ some (if m == ch then push d else d))
      → IsOpen chs n
      → IsOpen chs' n
  IsOpen-sent chs chs' ch n sent (c, at, o) = elim (Bool-cases (n == ch)) [
    | inl same ↦ (push c, rw same at (sent n c at), closed-push c ∙ o)
    | inr other ↦ (c, rw other at (sent n c at), o)
  ]

  send_all_lem :
      (l : List ℕ) (chs : List (Channel E))
      → AllOpen l chs
      → Returns (λ chs'. (length chs' ≡ length chs) × Sent l chs chs') (send_all cap e l chs)
  unfolding send_all
  send_all_lem [] chs opens = returns (refl, λ n c at. at ∙ ap some (sym (receive-zero c)))
  send_all_lem (ch ∷ l) chs opens =
      let (c, at, o) = opens ch (ground arith) in
      Returns-bind (send_lem chs ch c at o) λ chs' sent.
        Returns-map
          (send_all_lem l chs' λ n h. IsOpen-sent chs chs' ch n sent.1 (opens n (ground arith)))
          λ chs'' rest. (
            rest.0 ∙ sent.0,
            λ n d f. elim (Bool-cases (n == ch)) [
              | inl same ↦
                  rest.1 n (push d) (rw same at (sent.1 n d f))
                  ∙ ap some (receive-push (count n l) d)
                  ∙ ap (λ k. some (receive k d)) (ground arith)
              | inr other ↦
                  rest.1 n d (rw other at (sent.1 n d f))
                  ∙ ap (λ k. some (receive k d)) (ground arith)
            ],
          )

  receive-receive : (j k : ℕ) (c : Channel E) → receive j (receive k c) ≡ receive (k + j) c
  receive-receive j zero c = ap (receive j) (receive-zero c) ∙ ap (λ n. receive n c) (omega arith)
  receive-receive j (suc k) c =
      ap (receive j) (sym (receive-push k c))
      ∙ receive-receive j k (push c)
      ∙ receive-push (k + j) c
      ∙ ap (λ n. receive n c) (omega arith)

module _ {E : Type 0} ⦃k : Kinded E⦄ where
  -- How often Publish sends the event to the channel.
  abbrev pub sends : EventBus E → E → ℕ → ℕ
  sends b e n =
      count n (members (Dict.lookup (k.type_name e) b.subscribers))
      + count n (members (Dict.lookup "all" b.subscribers))

  -- Every channel has got its copies of the event, as many as it had room for, behind what was in it.
  pub record Published (b : EventBus E) (e : E) (b' : EventBus E) : Type 0 where
    pub owned : Owned b'
    pub subscriptions_kept : b'.subscriptions ≡ b.subscriptions
    pub subscribers_kept : b'.subscribers ≡ b.subscribers
    pub size_kept : b'.buffer_size ≡ b.buffer_size
    pub none_added : length b'.channels ≡ length b.channels
    pub got :
        (n : ℕ) (c : Channel E)
        → get_elem? b.channels n ≡ some c
        → get_elem? b'.channels n ≡ some (receive b.buffer_size e (sends b e n) c)

  all-IsOpen :
      (b : EventBus E) (v : Owned b) (key : String) (n : ℕ)
      → has_num n (members (Dict.lookup key b.subscribers)) ≡ true
      → IsOpen b.channels n
  all-IsOpen b v key n h =
      let o = v.owner key n h in subst (IsOpen b.channels) o.same (v.live o.id o.sub o.at)

  IsOpen-Sent :
      (cap : ℕ) (e : E) (l : List ℕ) (chs chs' : List (Channel E)) (n : ℕ)
      → ((m : ℕ) (c : Channel E)
          → get_elem? chs m ≡ some c
          → get_elem? chs' m ≡ some (receive cap e (count m l) c))
      → IsOpen chs n
      → IsOpen chs' n
  IsOpen-Sent cap e l chs chs' n sent (c, at, o) = (receive cap e (count n l) c, sent n c at, o)

  -- On a bus whose subscribers own their channels Publish returns without waiting and without a send
  -- to a closed channel. Each channel gets one copy for each time it stands in the lists of the
  -- event's type and of "all", until it is full, behind what it held, and nothing else changes; the
  -- subscribers own their channels again.
  pub publish_lem : (b : EventBus E) (e : E) → Owned b → Returns (Published b e) (publish b e)
  unfolding publish
  publish_lem b e v =
      let typed = members (Dict.lookup (k.type_name e) b.subscribers) in
      let every = members (Dict.lookup "all" b.subscribers) in
      Returns-bind (send_all_lem b.buffer_size e typed b.channels (all-IsOpen b v (k.type_name e)))
        λ first sent1.
          Returns-bind
            (send_all_lem b.buffer_size e every first λ n h.
              IsOpen-Sent b.buffer_size e typed b.channels first n sent1.1
                (all-IsOpen b v "all" n h))
            λ second sent2. returns (record {
              owned = record {
                distinct = v.distinct;
                owner = λ key ch h.
                    let o = v.owner key ch h in
                    record { id = o.id; sub = o.sub; at = o.at; same = o.same; listed = o.listed };
                live = λ id sub at. IsOpen-Sent b.buffer_size e every first second sub.ch sent2.1 (
                    IsOpen-Sent b.buffer_size e typed b.channels first sub.ch sent1.1
                      (v.live id sub at));
                apart = v.apart;
              };
              subscriptions_kept = refl;
              subscribers_kept = refl;
              size_kept = refl;
              none_added = sent2.0 ∙ sent1.0;
              got = λ n c at.
                  sent2.1 n _ (sent1.1 n c at)
                  ∙ ap some (receive-receive b.buffer_size e (count n every) (count n typed) c);
            })
