-- ===== src/Router/Exclusive.antt =====
-- A handler with a lock runs its processor for one message at a time (router/handler.go).
use cliffhanger.Prelude.{
  ℕ, ◌+◌, ◌-◌, ◌≡◌, refl, ◌⊎◌, inl, Bool, true, false, List, [], ◌∷◌, arith, ◌==◌, if◌then◌else◌,
  nat_eq, string_eq,
}
use cliffhanger.Prelude.Int.{int_eq}
use cliffhanger.Router.{MessageHandler, lock, unlock, enter, leave}

-- the lock of a handler, and the number of calls of the processor that run
pub record Calls : Type 0 where
  pub is_locked : Bool
  pub running : ℕ

-- a message arrives, or a call of the processor returns or panics
pub data CallEvent : Type 0 where
  arrives returns : CallEvent

-- nothing returns when no call runs
unfoldable pub call_step : MessageHandler → CallEvent → Calls → Calls
unfolding enter leave
call_step h arrives c =
    let (entered, locked) = enter h c.is_locked in
    record { is_locked = locked; running = if entered then c.running + 1 else c.running }
call_step h returns c =
    if c.running == 0
    then c
    else record { is_locked = leave h c.is_locked; running = c.running - 1 }

unfoldable pub calls : MessageHandler → List CallEvent → Calls → Calls
unfolding call_step
calls h [] c = c
calls h (e ∷ es) c = calls h es (call_step h e c)

abbrev pub no_calls : Calls
no_calls = record { is_locked = false; running = 0 }

-- no call runs and the lock is free, or one runs and holds it
pub IsExclusive : Calls → Type 0
IsExclusive c = (c.is_locked ≡ false) × (c.running ≡ 0) ⊎ (c.is_locked ≡ true) × (c.running ≡ 1)

call_step-IsExclusive :
    (h : MessageHandler) (e : CallEvent) (c : Calls)
    → h.locking ≡ true
    → IsExclusive c
    → IsExclusive (call_step h e c)
unfolding call_step enter leave lock unlock IsExclusive
call_step-IsExclusive h arrives c w i = ground arith
call_step-IsExclusive h returns c w i = ground arith

calls_from :
    (h : MessageHandler) (es : List CallEvent) (c : Calls)
    → h.locking ≡ true
    → IsExclusive c
    → IsExclusive (calls h es c)
unfolding calls
calls_from h [] c w i = i
calls_from h (e ∷ es) c w i = calls_from h es (call_step h e c) w (call_step-IsExclusive h e c w i)

-- After any sequence of messages that arrive and calls that return, a handler with its own lock has at
-- most one call of its processor running, and the lock is held exactly while one runs.
pub calls-IsExclusive :
    (h : MessageHandler) (es : List CallEvent)
    → h.locking ≡ true
    → IsExclusive (calls h es no_calls)
unfolding IsExclusive
calls-IsExclusive h es w = calls_from h es no_calls w (inl (refl, refl))
