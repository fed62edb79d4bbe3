-- ===== src/Lifecycle.antt =====
-- lifecycle/lifecycle.go: the states of an application and the bus that tells its subscribers of
-- their changes. A subscriber keeps the channel that it was given, so channels stand in a store and
-- the bus holds their places. `none` is a panic. A buffer of size 0 is taken to have no receiver
-- waiting. Every method holds a lock while it runs, so it is one step; `time.Now()` and what the
-- configuration store answers are arguments.
mod Bus
mod Sound
mod Delivery
mod Waiting
mod Examples
use cliffhanger.Prelude.{
  ℕ, ◌+◌, String, Bool, true, false, ◌&&◌, Option, none, some, List, [], ◌∷◌, ◌++◌, str_eq, ltb,
  ◌==◌, if◌then◌else◌, length,
}
use cliffhanger.Prelude.Int.{ℤ, pos, negsuc, Time}
use cliffhanger.Prelude.Dict.{Dict, lookup, insert, remove}

-- SystemEvent; a nil map of parameters is the empty one
pub record SystemEvent : Type 0 where
  pub event_type : String
  pub state : String
  pub params : Dict String

-- a Go channel of events
pub record Channel : Type 0 where
  pub buffer : List SystemEvent
  pub cap : ℕ
  pub closed : Bool

pub record Lifecycle : Type 0 where
  pub system_event_bus : Dict ℕ
  pub channels : ℕ → Channel
  pub next_channel : ℕ
  pub app_health : String
  pub connection_state : String
  pub auth_state : String
  pub config_state : String
  pub start_time : Time
  pub restarts_count : ℤ

abbrev pub state_type_app_health : String
state_type_app_health = "APP_HEALTH"

abbrev pub state_type_config_state : String
state_type_config_state = "CONFIG_STATE"

abbrev pub state_type_auth_state : String
state_type_auth_state = "AUTH_STATE"

abbrev pub state_type_conn_state : String
state_type_conn_state = "CONN_STATE"

abbrev pub app_health_starting : String
app_health_starting = "STARTING"

abbrev pub config_state_not_configured : String
config_state_not_configured = "NOT_CONFIGURED"

abbrev pub state_na : String
state_na = "NA"

-- `make(SystemEventChannel, bufSize)`
abbrev pub make_channel : ℕ → Channel
make_channel n = record { buffer = []; cap = n; closed = false }

-- `New`; `increment` is what `IncrementRestartsCount` of the store returns beside its error, if
-- there is a store
unfoldable pub new : Time → Option ℤ → Lifecycle
new now increment = record {
  system_event_bus = [];
  channels = λ i. make_channel 0;
  next_channel = 0;
  app_health = app_health_starting;
  connection_state = state_na;
  auth_state = state_na;
  config_state = config_state_not_configured;
  start_time = now;
  restarts_count = elim increment [ none ↦ pos 0 | some n ↦ n ];
}

-- `State`
unfoldable pub state_of : String → Lifecycle → String
state_of t l =
    if str_eq t state_type_app_health
    then l.app_health
    else if str_eq t state_type_config_state
    then l.config_state
    else if str_eq t state_type_auth_state
    then l.auth_state
    else if str_eq t state_type_conn_state
    then l.connection_state
    else ""

abbrev pub update : (ℕ → Channel) → ℕ → Channel → ℕ → Channel
update f i c j = if i == j then c else f j

-- the `select` of `emitStateChangeEvent`: a full buffer drops the event, a closed channel panics
unfoldable pub send : SystemEvent → Channel → Option Channel
send ev c =
    if c.closed
    then none
    else if ltb (length c.buffer) c.cap
    then some (record c { buffer = c.buffer ++ ev ∷ [] })
    else some c

-- the loop of `emitStateChangeEvent`
unfoldable pub emit_all : SystemEvent → Dict ℕ → (ℕ → Channel) → Option (ℕ → Channel)
emit_all ev [] channels = some channels
emit_all ev ((id, i) ∷ rest) channels = elim (send ev (channels i)) [
  | none ↦ none
  | some c ↦ emit_all ev rest (update channels i c)
]

unfoldable pub emit_state_change_event :
    String → String → Dict String → Lifecycle → Option Lifecycle
emit_state_change_event t s params l =
    elim (emit_all (record { event_type = t; state = s; params = params }) l.system_event_bus
      l.channels) [ none ↦ none | some channels ↦ some (record l { channels = channels }) ]

unfoldable pub set_config_state : String → Lifecycle → Option Lifecycle
set_config_state s l =
    if str_eq s l.config_state
    then some l
    else emit_state_change_event state_type_config_state s [] (record l { config_state = s })

unfoldable pub set_auth_state : String → Lifecycle → Option Lifecycle
set_auth_state s l =
    if str_eq s l.auth_state
    then some l
    else emit_state_change_event state_type_auth_state s [] (record l { auth_state = s })

unfoldable pub set_conn_state : String → Lifecycle → Option Lifecycle
set_conn_state s l =
    if str_eq s l.connection_state
    then some l
    else emit_state_change_event state_type_conn_state s [] (record l { connection_state = s })

unfoldable pub set_app_health : String → Dict String → Lifecycle → Option Lifecycle
set_app_health s params l =
    if str_eq s l.app_health
    then some l
    else emit_state_change_event state_type_app_health s params (record l { app_health = s })

-- `Subscribe` of a buffer that is not negative: the new state, and the channel's place
unfoldable pub subscribe_sized : String → ℕ → Lifecycle → Lifecycle × ℕ
subscribe_sized id size l = elim (lookup id l.system_event_bus) [
  | some i ↦ (l, i)
  | none ↦ (
    record l {
      system_event_bus = insert id l.next_channel l.system_event_bus;
      channels = update l.channels l.next_channel (make_channel size);
      next_channel = l.next_channel + 1;
    },
    l.next_channel,
  )
]

-- `Subscribe`: `make` of a negative buffer panics
unfoldable pub subscribe : String → ℤ → Lifecycle → Option (Lifecycle × ℕ)
subscribe id (pos size) l = some (subscribe_sized id size l)
subscribe id (negsuc n) l = elim (lookup id l.system_event_bus) [
  | some i ↦ some (l, i)
  | none ↦ none
]

-- closing a closed channel panics
unfoldable pub unsubscribe : String → Lifecycle → Option Lifecycle
unsubscribe id l = elim (lookup id l.system_event_bus) [
  | none ↦ some l
  | some i ↦
      (if (l.channels i).closed
        then none
        else some (record l {
          channels = update l.channels i (record (l.channels i) { closed = true });
          system_event_bus = remove id l.system_event_bus;
        }))
]

abbrev pub tail_of : List SystemEvent → List SystemEvent
tail_of [] = []
tail_of (ev ∷ rest) = rest

abbrev pub rest_of : Channel → Channel
rest_of c = record c { buffer = tail_of c.buffer }

-- a subscriber takes the first event of a channel that it holds, if there is one
unfoldable pub receive : ℕ → Lifecycle → Lifecycle
receive i l = record l { channels = update l.channels i (rest_of (l.channels i)) }

-- the loop of `WaitFor` over the events that it receives: whether one of them ends it
unfoldable pub wait_loop : String → String → List SystemEvent → Bool
wait_loop t target [] = false
wait_loop t target (ev ∷ rest) =
    if str_eq ev.event_type t && str_eq ev.state target then true else wait_loop t target rest

-- `WaitFor` until it blocks or returns: the first test is made in the state `before`, the subscription
-- in the state `l`, which other calls may have changed. `none` is the early return, and else the
-- channel that the loop reads is given.
unfoldable pub wait_for : String → String → String → Lifecycle → Lifecycle → Lifecycle × Option ℕ
unfolding state_of
wait_for id t target before l =
    if str_eq (state_of t before) target
    then (l, none)
    else let (l', i) = subscribe_sized id 5 l in (l', some i)

-- the four states that have setters
pub data Field : Type 0 where
  health config auth conn : Field

abbrev pub field_type : Field → String
field_type health = state_type_app_health
field_type config = state_type_config_state
field_type auth = state_type_auth_state
field_type conn = state_type_conn_state

-- `AppHealth`, `ConfigState`, `AuthState`, `ConnectionState`
abbrev pub get_field : Field → Lifecycle → String
get_field health l = l.app_health
get_field config l = l.config_state
get_field auth l = l.auth_state
get_field conn l = l.connection_state

-- Only `SetAppHealth` takes parameters.
unfoldable pub set_field : Field → String → Dict String → Lifecycle → Option Lifecycle
set_field health s params l = set_app_health s params l
set_field config s params l = set_config_state s l
set_field auth s params l = set_auth_state s l
set_field conn s params l = set_conn_state s l

-- calls of the methods, and what subscribers do
pub data Op : Type 0 where
  set_op : Field → String → Dict String → Op
  subscribe_op : String → ℤ → Op
  unsubscribe_op : String → Op
  receive_op : ℕ → Op

unfoldable pub step : Op → Lifecycle → Option Lifecycle
step (set_op f s params) l = set_field f s params l
step (subscribe_op id size) l = elim (subscribe id size l) [ none ↦ none | some (l', i) ↦ some l' ]
step (unsubscribe_op id) l = unsubscribe id l
step (receive_op i) l = some (receive i l)

unfoldable pub run : List Op → Lifecycle → Option Lifecycle
run [] l = some l
run (op ∷ rest) l = elim (step op l) [ none ↦ none | some l' ↦ run rest l' ]
