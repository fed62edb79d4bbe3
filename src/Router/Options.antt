-- ===== src/Router/Options.antt =====
-- The options of a router and its start and stop (router/router.go).
use cliffhanger.Prelude.{
  ◌≡◌, ◌↔◌, true, false, Option, none, some, List, [], ◌∷◌, arith, nat_eq, string_eq,
}
use cliffhanger.Prelude.Int.{pos, ◌+ℤ◌, ◌≤ℤ◌, int_eq}
use cliffhanger.Router.Routes.{
  Config, default_config, RouterOption, with_sync_processing, with_async_processing,
  with_message_buffer, with_preserved_global_prefix, with_panic_callback, with_stats_callback,
  apply_option, with_options, Router, new_router, start, stop,
}

-- there is a worker, and the buffer has a size that a channel can be made of
pub IsUsable : Config → Type 0
IsUsable cfg = (pos 1 ≤ℤ cfg.concurrency) × (pos 0 ≤ℤ cfg.buffer)

apply_option-IsUsable :
    (o : RouterOption) (cfg : Config) → IsUsable cfg → IsUsable (apply_option o cfg)
unfolding apply_option IsUsable
apply_option-IsUsable with_sync_processing cfg i = ground arith
apply_option-IsUsable (with_async_processing n) cfg i = ground arith
apply_option-IsUsable (with_message_buffer n) cfg i = ground arith
apply_option-IsUsable with_preserved_global_prefix cfg i = i
apply_option-IsUsable with_panic_callback cfg i = i
apply_option-IsUsable with_stats_callback cfg i = i

pub with_options-IsUsable :
    (os : List RouterOption) (cfg : Config) → IsUsable cfg → IsUsable (with_options os cfg)
unfolding with_options
with_options-IsUsable [] cfg i = i
with_options-IsUsable (o ∷ os) cfg i =
    with_options-IsUsable os (apply_option o cfg) (apply_option-IsUsable o cfg i)

pub data RouterOp : Type 0 where
  configure : List RouterOption → RouterOp
  starting stopping : RouterOp

abbrev or_same : Router → Option Router → Router
or_same r none = r
or_same r (some r') = r'

-- a refused start or stop leaves the router as it is
unfoldable pub router_step : RouterOp → Router → Router
unfolding with_options start stop
router_step (configure os) r = record r { cfg = with_options os r.cfg }
router_step starting r = or_same r (start r)
router_step stopping r = or_same r (stop r)

unfoldable pub operate : List RouterOp → Router → Router
unfolding router_step
operate [] r = r
operate (o ∷ os) r = operate os (router_step o r)

-- A running router is registered and has workers, and one that does not run has neither.
pub IsRunning : Router → Type 0
IsRunning r =
    (r.running ≡ r.registered)
    × ((r.running ≡ true) ↔ (pos 1 ≤ℤ r.workers))
    × ((r.running ≡ false) → r.workers ≡ pos 0)
    × IsUsable r.cfg

router_step-IsRunning : (o : RouterOp) (r : Router) → IsRunning r → IsRunning (router_step o r)
unfolding router_step IsRunning start stop IsUsable ◌+ℤ◌
router_step-IsRunning (configure os) r (a, b, c, i) = (a, b, c, with_options-IsUsable os r.cfg i)
router_step-IsRunning starting r i = ground arith
router_step-IsRunning stopping r i = ground arith

operate_from : (os : List RouterOp) (r : Router) → IsRunning r → IsRunning (operate os r)
unfolding operate
operate_from [] r i = i
operate_from (o ∷ os) r i = operate_from os (router_step o r) (router_step-IsRunning o r i)

new-IsRunning : IsRunning new_router
unfolding IsRunning IsUsable new_router default_config
new-IsRunning = ground arith

-- A new router that is configured, started and stopped in any order is always consistent: it is
-- registered and has at least one worker exactly while it runs, it has none while it does not run, and
-- its configuration keeps a concurrency of at least one and a buffer that is not negative.
pub operate-IsRunning : (os : List RouterOp) → IsRunning (operate os new_router)
operate-IsRunning os = operate_from os new_router new-IsRunning
