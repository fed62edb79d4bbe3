-- ===== src/Events.antt =====
-- event/manager.go and listener.go: the event manager of an application. Every method holds its lock, so
-- that each is one step; a subscription refers to a place in a store of channels, which the subscribers
-- and the manager share. What a panic stops is `none`. Which channels a goroutine waits on is an argument.
mod Safety
mod Runs
mod Delivery
mod Examples
use cliffhanger.Prelude.{
  ℕ, ◌+◌, String, Bool, true, false, not, ◌||◌, Option, none, some, List, [], ◌∷◌, ◌++◌, ltb, ◌==◌,
  if◌then◌else◌, length,
}
use cliffhanger.Prelude.Int.{ℤ, pos, negsuc}
use cliffhanger.Prelude.Dict.{Dict, lookup, insert, remove}

-- a channel with a buffer; an event that a waiting goroutine takes at once stands in its queue until then
pub record Channel (E : Type 0) : Type 0 where
  pub buffer : ℕ
  pub queue : List E
  pub is_closed : Bool

pub record Subscription (E : Type 0) : Type 0 where
  pub channel : ℕ
  pub filters : List (E → Bool)

pub record Manager (E : Type 0) : Type 0 where
  pub subscriptions : Dict (Subscription E)
  pub channels : ℕ → Channel E
  pub next_channel : ℕ
  pub wait_buffer : ℕ

-- a handler of a listener: the id, the buffer and the filters of its subscription, and its channel
pub record Handler (E : Type 0) : Type 0 where
  pub sub_id : String
  pub handler_buffer : ℤ
  pub handler_filters : List (E → Bool)

-- a loop that goes on unless it panicked
abbrev pub and_then : {A B : Type 0} → Option A → (A → Option B) → Option B
and_then none f = none
and_then (some a) f = f a

module _ {E : Type 0} where
  abbrev pub empty_channel : ℕ → Channel E
  empty_channel buffer = record { buffer = buffer; queue = []; is_closed = false }

  -- `NewManager`
  unfoldable pub new_manager : Manager E
  new_manager = record {
    subscriptions = [];
    channels = λ i. empty_channel 0;
    next_channel = 0;
    wait_buffer = 10;
  }

  -- a store of channels with another one at a place
  abbrev pub set_channel : ℕ → Channel E → (ℕ → Channel E) → ℕ → Channel E
  set_channel i c channels j = if j == i then c else channels j

  -- `filter` of a subscription
  unfoldable pub filter : List (E → Bool) → E → Bool
  filter [] event = true
  filter (f ∷ fs) event = if not (f event) then false else filter fs event

  -- the select statement of `Publish`: the event is sent or dropped; on a closed channel it panics
  unfoldable pub offer : Bool → E → Channel E → Option (Channel E)
  offer awaited event c =
      if c.is_closed
      then none
      else if ltb (length c.queue) c.buffer || awaited
      then some (record c { queue = c.queue ++ (event ∷ []) })
      else some c

  -- the loop of `Publish`
  unfoldable pub publish_to :
      (ℕ → Bool) → E → Dict (Subscription E) → (ℕ → Channel E) → Option (ℕ → Channel E)
  unfolding filter offer
  publish_to awaited event [] channels = some channels
  publish_to awaited event ((id, s) ∷ subs) channels =
      if not (filter s.filters event)
      then publish_to awaited event subs channels
      else and_then (offer (awaited s.channel) event (channels s.channel))
          λ c. publish_to awaited event subs (set_channel s.channel c channels)

  -- `Publish`
  unfoldable pub publish : (ℕ → Bool) → E → Manager E → Option (Manager E)
  unfolding publish_to
  publish awaited event m =
      and_then (publish_to awaited event m.subscriptions m.channels)
        λ channels. some (record m { channels = channels })

  abbrev pub subscribe_new : String → ℕ → List (E → Bool) → Manager E → Manager E × ℕ
  subscribe_new id buffer filters m = (
    record m {
      subscriptions =
          insert id (record { channel = m.next_channel; filters = filters }) m.subscriptions;
      channels = set_channel m.next_channel (empty_channel buffer) m.channels;
      next_channel = m.next_channel + 1;
    },
    m.next_channel,
  )

  -- `Subscribe`, on the subscription that there is
  abbrev pub subscribe_or :
      Option (Subscription E) → String → ℕ → List (E → Bool) → Manager E → Manager E × ℕ
  subscribe_or none id buffer filters m = subscribe_new id buffer filters m
  subscribe_or (some s) id buffer filters m = (m, s.channel)

  -- `Subscribe` of a buffer that is not negative: the new state, and the place of the channel
  unfoldable pub subscribe_sized : String → ℕ → List (E → Bool) → Manager E → Manager E × ℕ
  unfolding insert lookup
  subscribe_sized id buffer filters m = subscribe_or (lookup id m.subscriptions) id buffer filters m

  -- `Subscribe`: `make` of a negative buffer panics
  unfoldable pub subscribe : String → ℤ → List (E → Bool) → Manager E → Option (Manager E × ℕ)
  unfolding subscribe_sized lookup
  subscribe id (pos buffer) filters m = some (subscribe_sized id buffer filters m)
  subscribe id (negsuc n) filters m = elim (lookup id m.subscriptions) [
    | none ↦ none
    | some s ↦ some (m, s.channel)
  ]

  -- `close` of a channel, which panics when it is closed
  abbrev pub close_channel : ℕ → Manager E → Option (Manager E)
  close_channel i m =
      if (m.channels i).is_closed
      then none
      else some (record m {
        channels = set_channel i (record (m.channels i) { is_closed = true }) m.channels;
      })

  abbrev pub unsubscribe_or : Option (Subscription E) → String → Manager E → Option (Manager E)
  unsubscribe_or none id m = some m
  unsubscribe_or (some s) id m =
      and_then (close_channel s.channel m)
        λ m'. some (record m' { subscriptions = remove id m'.subscriptions })

  -- `Unsubscribe`
  unfoldable pub unsubscribe : String → Manager E → Option (Manager E)
  unfolding lookup remove
  unsubscribe id m = unsubscribe_or (lookup id m.subscriptions) id m

  abbrev pub take_from : List E → Channel E → Channel E × Option E
  take_from [] c = (c, none)
  take_from (event ∷ events) c = (record c { queue = events }, some event)

  -- a receive on a channel; none is a wait, or the end of a closed channel
  unfoldable pub receive : ℕ → Manager E → Manager E × Option E
  receive i m =
      let (c, got) = take_from (m.channels i).queue (m.channels i) in
      (record m { channels = set_channel i c m.channels }, got)

  -- the goroutine of `WaitFor` when it ends: at the first event of its channel, or at the timeout
  unfoldable pub wait_ends : String → ℕ → Bool → Manager E → Option (Manager E × Option E)
  unfolding receive unsubscribe
  wait_ends id i timeout m =
      let (m', got) = if timeout then (m, none) else receive i m in
      and_then (unsubscribe id m') λ m''. some (m'', got)

  -- `WaitFor` up to its goroutine, for an id from the package uuid
  unfoldable pub wait_for : String → List (E → Bool) → Manager E → Manager E × ℕ
  unfolding subscribe_sized
  wait_for id filters m = subscribe_sized id m.wait_buffer filters m

  -- `Start` of a listener that is not started: the subscriptions of its handlers, and their channels
  unfoldable pub subscribe_all : List (Handler E) → Manager E → Option (Manager E × List ℕ)
  unfolding subscribe
  subscribe_all [] m = some (m, [])
  subscribe_all (h ∷ hs) m =
      and_then (subscribe h.sub_id h.handler_buffer h.handler_filters m)
        λ r. and_then (subscribe_all hs r.0) λ rs. some (rs.0, r.1 ∷ rs.1)

  -- the loop of `Stop`
  unfoldable pub unsubscribe_all : List (Handler E) → Manager E → Option (Manager E)
  unfolding unsubscribe
  unsubscribe_all [] m = some m
  unsubscribe_all (h ∷ hs) m = and_then (unsubscribe h.sub_id m) (unsubscribe_all hs)
