-- ===== src/Router/Routes.antt =====
-- router/router.go: the routings' votes, the answer's address, what is published, and the router's
-- start and stop. A routing's handler that is nil is `none`; a handler's panic is `none`, too.
use cliffhanger.Prelude.{
  Bool, true, false, Option, none, some, List, [], ◌∷◌, ◌++◌, str_eq, if◌then◌else◌, nat_eq,
  string_eq,
}
use cliffhanger.Prelude.Int.{ℤ, pos, ◌+ℤ◌, ltb_ℤ, int_eq}
use cliffhanger.Router.{Address, Payload, Message, Response, Fimp}

-- `config`; the callbacks are left to the effects of `process_message`
pub record Config : Type 0 where
  pub buffer : ℤ
  pub concurrency : ℤ
  pub preserve_global_prefix : Bool
  pub panic_callback : Bool
  pub stats_callback : Bool

-- `defaultConfig`
unfoldable pub default_config : Config
default_config = record {
  buffer = pos 10;
  concurrency = pos 5;
  preserve_global_prefix = false;
  panic_callback = false;
  stats_callback = false;
}

pub data RouterOption : Type 0 where
  with_sync_processing : RouterOption
  with_async_processing : ℤ → RouterOption
  with_message_buffer : ℤ → RouterOption
  with_preserved_global_prefix with_panic_callback with_stats_callback : RouterOption

-- `apply`
unfoldable pub apply_option : RouterOption → Config → Config
apply_option with_sync_processing cfg = record cfg { concurrency = pos 1 }
apply_option (with_async_processing n) cfg =
    if ltb_ℤ n (pos 2) then cfg else record cfg { concurrency = n }
apply_option (with_message_buffer n) cfg =
    if ltb_ℤ n (pos 0) then cfg else record cfg { buffer = n }
apply_option with_preserved_global_prefix cfg = record cfg { preserve_global_prefix = true }
apply_option with_panic_callback cfg = record cfg { panic_callback = true }
apply_option with_stats_callback cfg = record cfg { stats_callback = true }

-- `WithOptions`
unfoldable pub with_options : List RouterOption → Config → Config
unfolding apply_option
with_options [] cfg = cfg
with_options (o ∷ os) cfg = with_options os (apply_option o cfg)

pub record Routing : Type 0 where
  pub voters : List (Message → Bool)
  pub handler : Option (Message → Option (Option Response))

-- `vote`
unfoldable pub vote : List (Message → Bool) → Message → Bool
vote [] m = true
vote (v ∷ vs) m = if v m then vote vs m else false

-- what the router does for a message
pub data Effect : Type 0 where
  published : Address → Payload → Effect
  stats : Option Response → Effect
  panicked : Effect

abbrev pub with_prefix : Config → Message → Address → Address
with_prefix cfg m a =
    if cfg.preserve_global_prefix then record a { global_prefix = m.addr.global_prefix } else a

abbrev pub correlate : Message → Payload → Payload
correlate m p =
    if str_eq p.correlation_id "" then record p { correlation_id = m.payload.uid } else p

-- the deferred call of the callback
abbrev pub report_stats : Config → Option Response → List Effect
report_stats cfg r = if cfg.stats_callback then stats r ∷ [] else []

module _ (fimp : Fimp) where
  -- `getResponseAddress` of the router
  unfoldable pub response_address : Config → Message → Response → Option Address
  response_address cfg m r =
      if str_eq m.payload.response_to_topic ""
      then elim r.reply_addr [ none ↦ none | some a ↦ some (with_prefix cfg m a) ]
      else elim (fimp.address_from_string m.payload.response_to_topic) [
        | none ↦ none
        | some a ↦ some (with_prefix cfg m a)
      ]

  -- the part of `processMessage` after the handler has answered
  unfoldable pub respond : Config → Message → Option Response → List Effect
  unfolding response_address
  respond cfg m none = []
  respond cfg m (some r) = elim (response_address cfg m r) [
    | none ↦ []
    | some a ↦ published a (correlate m r.reply_payload) ∷ []
  ]

  -- what follows the handler's return, or its panic
  unfoldable pub after_handler : Config → Message → Option (Option Response) → List Effect
  unfolding respond
  after_handler cfg m none = if cfg.panic_callback then panicked ∷ [] else []
  after_handler cfg m (some r) = respond cfg m r ++ report_stats cfg r

  unfoldable pub call_handler :
      Config → Message → Option (Message → Option (Option Response)) → List Effect
  unfolding after_handler
  call_handler cfg m none = []
  call_handler cfg m (some h) = after_handler cfg m (h m)

  unfoldable pub process_message : Config → Routing → Message → List Effect
  unfolding vote call_handler
  process_message cfg routing m =
      if vote routing.voters m then call_handler cfg m routing.handler else []

  -- one message of the loop of `routeMessages`
  unfoldable pub route_message : Config → List Routing → Message → List Effect
  unfolding process_message
  route_message cfg [] m = []
  route_message cfg (r ∷ rs) m = process_message cfg r m ++ route_message cfg rs m

-- `router`: `stopCh` is not nil, the channel is registered, the workers of the wait group
pub record Router : Type 0 where
  pub cfg : Config
  pub running : Bool
  pub registered : Bool
  pub workers : ℤ

-- `NewRouter`
unfoldable pub new_router : Router
unfolding default_config
new_router = record { cfg = default_config; running = false; registered = false; workers = pos 0 }

-- `Start`; none is the error of a router that is running
unfoldable pub start : Router → Option Router
start r =
    if r.running
    then none
    else some
        (record r { running = true; registered = true; workers = r.workers +ℤ r.cfg.concurrency })

-- `Stop`, which waits for all workers to return
unfoldable pub stop : Router → Option Router
stop r =
    if r.running
    then some (record r { running = false; registered = false; workers = pos 0 })
    else none
