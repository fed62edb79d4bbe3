-- ===== src/Device/Report.antt =====
-- adapter/service/*/service.go: the part that the methods `Send…Report` have in common. What the controller
-- answers, the instants at which the cache reads the clock and whether the transport takes the message
-- are arguments.
pub mod Laws
use cliffhanger.Prelude.{String, Bool, not, ◌&&◌, Option, none, some, if◌then◌else◌}
use cliffhanger.Prelude.Int.{Time}
use cliffhanger.Prelude.Dict.{Dict}
use cliffhanger.Cache.Reporter.{Strategy, ReportingCache, report_required, reported}

-- what the outside does during a call: the instants at which the cache asks and notes, and the transport
pub record Call : Type 0 where
  pub asked : Time
  pub noted : Time
  pub is_taken : Bool

-- a value and properties, under the type of an event
pub record Message {ℓ} (P : Type ℓ) : Type ℓ where
  pub event : String
  pub payload : P
  pub properties : Dict String

-- the results: (true, nil) with the message, (false, nil), and the errors
pub data Sending {ℓ} (P : Type ℓ) : Type ℓ where
  sent : Message P → Sending P
  skipped unsupported unread unsent : Sending P

-- what is left of the cache, and the result
abbrev pub choose {ℓ κ} :
    {C : Type ℓ} {P : Type κ} → Bool → Bool → Bool → C → C → Message P → C × Sending P
choose force due taken c noted m =
    if not force && not due then (c, skipped) else if taken then (noted, sent m) else (c, unsent)

module _ {ℓ κ} {A : Type ℓ} {P : Type κ} (deep_equal : A → A → Bool) where
  -- the rest of a method, once the value is read
  unfoldable pub report_value :
      Call
      → Bool
      → Strategy
      → String
      → String
      → (A → Message P)
      → A
      → ReportingCache A
      → ReportingCache A × Sending P
  report_value call force strategy key sub_key message v c =
      choose force (report_required deep_equal call.asked c strategy key sub_key v) call.is_taken c
        (reported call.noted key sub_key v c) (message v)

  -- a method from the call of the controller on
  unfoldable pub send_report :
      Call
      → Bool
      → Strategy
      → String
      → String
      → (A → Message P)
      → Option A
      → ReportingCache A
      → ReportingCache A × Sending P
  unfolding report_value
  send_report call force strategy key sub_key message none c = (c, unread)
  send_report call force strategy key sub_key message (some v) c =
      report_value call force strategy key sub_key message v c
