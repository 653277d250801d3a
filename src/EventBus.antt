-- ===== src/EventBus.antt =====
-- core/event.go: the event bus. A channel is its index in the list of the channels that were made,
-- with what is unread in it; `none` stands for the panic of a send to, or a close of, a closed
-- channel. Publish holds only the read lock, so two of them can run at once: a call is modelled as one
-- step, which is Publish with no other send in between.
pub mod Owners
pub mod Drops
pub mod Unsubscribe
pub mod Publish
pub mod Close
pub mod Ids
mod Tests
use Prim.Native.String.{◌++◌ as str_append, count}
use godelayq.Prelude.{
  has_num, ℕ, zero, suc, ◌+◌, List, [], ◌∷◌, ◌++◌, Bool, true, false, ◌||◌, not, Option, none, some,
  String, ltb, ◌==◌, if◌then◌else◌, length, get_elem?, set, ite, string_discrete, ◌>>=◌,
}
use godelayq.Int64.{positive64}
use godelayq.Dict
use godelayq.Dict.{Dict}

-- An event of the scheduler, `E`, and its type as a text.
pub record Kinded (E : Type 0) : Type 0 where
  pub type_name : E → String

pub record Channel (E : Type 0) : Type 0 where
  pub buffer : List E
  pub closed : Bool

pub record EventSubscription : Type 0 where
  pub ch : ℕ
  pub event_types : List String

pub record EventBus (E : Type 0) : Type 0 where
  pub subscribers : Dict (List ℕ)
  pub subscriptions : Dict EventSubscription
  pub buffer_size : ℕ
  pub channels : List (Channel E)

abbrev pub new_event_bus : {E : Type 0} → ℕ → EventBus E
new_event_bus n = record {
  subscribers = [];
  subscriptions = [];
  buffer_size = if positive64 n then n else 100;
  channels = [];
}

abbrev pub members : Option (List ℕ) → List ℕ
members none = []
members (some chs) = chs

abbrev pub is_in : String → List String → Bool
is_in k [] = false
is_in k (j ∷ js) = ite (string_discrete j k) true (is_in k js)

-- The loop of nextSubscriptionIDLocked, with the rounds that are left.
unfoldable pub next_id_loop {ℓ} : {V : Type ℓ} → ℕ → Dict V → String → Option String
next_id_loop zero taken id = none
next_id_loop (suc rounds) taken id =
    let rest = next_id_loop rounds taken (str_append id "-sub") in
    elim (Dict.lookup id taken) [ none ↦ some id | some _ ↦ rest ]

unfoldable pub remove_subscriber_channel : List ℕ → ℕ → List ℕ
remove_subscriber_channel [] target = []
remove_subscriber_channel (ch ∷ chs) target =
    if ch == target
    then remove_subscriber_channel chs target
    else ch ∷ remove_subscriber_channel chs target

-- One key of the loops of Unsubscribe.
abbrev pub put_members : String → List ℕ → Dict (List ℕ) → Dict (List ℕ)
put_members key [] m = Dict.delete key m
put_members key (ch ∷ chs) m = Dict.insert key (ch ∷ chs) m

unfoldable pub drop_key : Dict (List ℕ) → String → ℕ → Dict (List ℕ)
unfolding remove_subscriber_channel
drop_key m key ch = put_members key (remove_subscriber_channel (members (Dict.lookup key m)) ch) m

-- The loop of Unsubscribe: the lists after it and the keys that remain.
unfoldable pub drop_keys :
    Bool → List String → ℕ → List String → Dict (List ℕ) → Dict (List ℕ) × List String
unfolding drop_key
drop_keys remove_all remove_set ch [] m = (m, [])
drop_keys remove_all remove_set ch (key ∷ keys) m =
    if remove_all || is_in key remove_set
    then drop_keys remove_all remove_set ch keys (drop_key m key ch)
    else (let (m', remaining) = drop_keys remove_all remove_set ch keys m in (m', key ∷ remaining))

-- The length of the longest key: no more ids than that are tried.
abbrev pub longest {ℓ} : {V : Type ℓ} → Dict V → ℕ
longest [] = 0
longest ((k, v) ∷ m) = if ltb (longest m) (count k) then count k else longest m

abbrev pub is_empty {ℓ} : {A : Type ℓ} → List A → Bool
is_empty [] = true
is_empty (x ∷ xs) = false

-- The loop of Subscribe.
unfoldable pub add_keys : List String → ℕ → Dict (List ℕ) → Dict (List ℕ)
add_keys [] ch m = m
add_keys (key ∷ keys) ch m =
    add_keys keys ch (Dict.insert key (members (Dict.lookup key m) ++ ch ∷ []) m)

module _ {E : Type 0} where
  abbrev pub fresh_channel : Channel E
  fresh_channel = record { buffer = []; closed = false }

  -- The fresh id has passed nextSubscriptionIDLocked.
  unfoldable pub subscribe : EventBus E → String → List String → EventBus E
  subscribe b id event_types =
      let ch = length b.channels in
      record b {
        subscribers = add_keys event_types ch b.subscribers;
        subscriptions =
            Dict.insert id (record { ch = ch; event_types = event_types }) b.subscriptions;
        channels = b.channels ++ fresh_channel ∷ [];
      }

  -- Subscribe, where generateID gives `generated`.
  unfoldable pub subscribe_new : EventBus E → String → List String → Option (EventBus E × String)
  subscribe_new b generated event_types =
      next_id_loop (suc (suc (longest b.subscriptions))) b.subscriptions generated >>= λ id.
      some (subscribe b id event_types, id)

  unfoldable pub subscribe_all : EventBus E → String → Option (EventBus E × String)
  unfolding subscribe_new
  subscribe_all b generated = subscribe_new b generated ("all" ∷ [])

  unfoldable pub close_channel : List (Channel E) → ℕ → Option (List (Channel E))
  close_channel chs ch = get_elem? chs ch >>= λ c.
      if c.closed then none else some (set chs ch (record c { closed = true }))

  unfoldable pub unsubscribe : EventBus E → String → List String → Option (EventBus E)
  unsubscribe b id event_types = elim (Dict.lookup id b.subscriptions) [
    | none ↦ some b
    | some sub ↦
        let remove_all = is_empty event_types in
        let (m, remaining) =
          drop_keys remove_all event_types sub.ch sub.event_types b.subscribers in
        if remove_all || is_empty remaining
        then (close_channel b.channels sub.ch >>= λ chs. some (record b {
          subscribers = m;
          subscriptions = Dict.delete id b.subscriptions;
          channels = chs;
        }))
        else some (record b {
          subscribers = m;
          subscriptions = Dict.insert id (record sub { event_types = remaining }) b.subscriptions;
        })
  ]

  -- A send in a select with a default case.
  unfoldable pub send : ℕ → E → List (Channel E) → ℕ → Option (List (Channel E))
  send cap e chs ch = get_elem? chs ch >>= λ c.
      if c.closed
      then none
      else if ltb (length c.buffer) cap
      then some (set chs ch (record c { buffer = c.buffer ++ e ∷ [] }))
      else some chs

  unfoldable pub send_all : ℕ → E → List ℕ → List (Channel E) → Option (List (Channel E))
  send_all cap e [] chs = some chs
  send_all cap e (ch ∷ rest) chs = send cap e chs ch >>= send_all cap e rest

  unfoldable pub publish : ⦃k : Kinded E⦄ → EventBus E → E → Option (EventBus E)
  publish ⦃k⦄ b e =
      send_all b.buffer_size e (members (Dict.lookup (k.type_name e) b.subscribers)) b.channels
      >>= λ first.
          send_all b.buffer_size e (members (Dict.lookup "all" b.subscribers)) first >>= λ second.
          some (record b { channels = second })

  -- The loop of Close, with the channels that it has closed.
  unfoldable pub close_loop :
      Dict EventSubscription → List ℕ → List (Channel E) → Option (List (Channel E))
  close_loop [] done chs = some chs
  close_loop ((id, sub) ∷ subs) done chs =
      let skip = close_loop subs done chs in
      let rest = close_channel chs sub.ch >>= close_loop subs (sub.ch ∷ done) in
      if has_num sub.ch done then skip else rest

  unfoldable pub close : EventBus E → Option (EventBus E)
  close b = close_loop b.subscriptions [] b.channels >>= λ chs.
      some (record b { subscribers = []; subscriptions = []; channels = chs })
