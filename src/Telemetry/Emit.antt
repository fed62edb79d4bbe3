-- ===== src/Telemetry/Emit.antt =====
-- telemetry/telemetry.go: what is published, and when. Texts are joined as in the code, with the zero
-- character in the keys of `emitIfMore`. The JSON text of data is a parameter, as is whether the
-- transport takes a message, which changes nothing here.
use cliffhanger.Prelude.{
  ℕ, ◌+◌, String, Bool, true, false, not, ◌&&◌, ◌||◌, Option, none, some, List, [], ◌∷◌, str_eq,
  leb, if◌then◌else◌, nat_eq, string_eq, contains,
}
use cliffhanger.Prelude.Int.{
  ℤ, pos, pos_part, ltb_ℤ, int_eq, Time, Duration, zero_time, is_zero, since,
}
use cliffhanger.Prelude.Dict.{Dict, lookup, insert}
use Prim.Native.String.{◌++◌ as join}
use text.Mathlib.Text.{starts_with}
use cliffhanger.Config.{SuppressedEntry}
use cliffhanger.Telemetry.{IfMoreState, Telemetry, config}

-- `Event`, with its topic
pub record Published (V : Type 0) : Type 0 where
  pub topic : String
  pub domain : String
  pub event : String
  pub values : Dict V

-- what a method does: nothing, the error of an event without a name, or a message
pub data Emitted (V : Type 0) : Type 0 where
  nothing nameless : Emitted V
  message : Published V → Emitted V

abbrev pub is_empty : List String → Bool
is_empty [] = true
is_empty (x ∷ xs) = false

-- the test of `emit` on the suppressed domains and events
unfoldable pub is_suppressed : Option SuppressedEntry → String → String → Bool
unfolding contains
is_suppressed none domain event = false
is_suppressed (some s) domain event =
    if is_empty s.domains && is_empty s.events
    then true
    else contains s.domains domain || contains s.events event

unfoldable pub on_change_key : String → String → String
on_change_key domain event = join domain (join "/" event)

abbrev pub nul : String
nul = "\0"

unfoldable pub counter_prefix : String → String → String
counter_prefix domain event = join domain (join nul (join event nul))

abbrev pub time_or_zero : Option Time → Time
time_or_zero none = zero_time
time_or_zero (some t) = t

-- `!last.IsZero() && time.Since(last) < interval`
abbrev pub is_throttled : Time → Time → Duration → Bool
is_throttled now last interval = not (is_zero last) && ltb_ℤ (since now last) interval

module _ {V : Type 0} where
  -- `publish`
  unfoldable pub publish : String → String → String → Dict V → Emitted V
  publish topic domain event values =
      if str_eq event ""
      then nameless
      else message (record { topic = topic; domain = domain; event = event; values = values })

  -- `emit`
  unfoldable pub emit : String → String → Dict V → Telemetry V → Emitted V
  unfolding config is_suppressed publish
  emit domain event values t =
      let c = config t in
      if not c.enabled
      then nothing
      else if is_suppressed c.suppressed domain event
      then nothing
      else publish t.topic domain event values

  -- `emitOnChange` up to the call of `emit`: the state, and whether it is throttled
  unfoldable pub note_change : String → Duration → Time → Telemetry V → Telemetry V × Bool
  note_change key interval now t =
      let throttled = is_throttled now (time_or_zero (lookup key t.emit_timestamps)) interval in
      (
        if throttled then t else record t { emit_timestamps = insert key now t.emit_timestamps },
        throttled,
      )

  -- `emitOnChange`
  unfoldable pub emit_on_change :
      String → String → Dict V → Duration → Time → Telemetry V → Telemetry V × Emitted V
  unfolding note_change emit on_change_key
  emit_on_change domain event values interval now t =
      let (t', throttled) = note_change (on_change_key domain event) interval now t in
      (t', if throttled then nothing else emit domain event values t')

  abbrev pub state_or_new : Dict V → Option (IfMoreState V) → IfMoreState V
  state_or_new values none = record { count = 0; last = zero_time; values = values }
  state_or_new values (some st) = st

  -- the state of `emitIfMore` after a call, and whether the call emits
  unfoldable pub count_call : ℕ → Bool → Duration → Time → IfMoreState V → IfMoreState V × Bool
  count_call threshold reset interval now st =
      let count = st.count + 1 in
      let emit_now = leb threshold count && not (is_throttled now st.last interval) in
      (
        if emit_now
            then record st { count = if reset then 0 else count; last = now }
            else record st { count = count },
        emit_now,
      )

  unfoldable pub note_more :
      String → ℕ → Bool → Dict V → Duration → Time → Telemetry V → Telemetry V × Bool
  unfolding count_call
  note_more key threshold reset values interval now t =
      let (st, emit_now) =
        count_call threshold reset interval now
          (state_or_new values (lookup key t.if_more_states)) in
      (record t { if_more_states = insert key st t.if_more_states }, emit_now)

module _ {V : Type 0} (fingerprint : Dict V → String) where
  -- the key of a state of `emitIfMore`
  unfoldable pub counter_key : String → String → Dict V → String
  unfolding counter_prefix
  counter_key domain event values = join (counter_prefix domain event) (fingerprint values)

  -- `emitIfMore`
  unfoldable pub emit_if_more :
      String → String → ℤ → Bool → Dict V → Duration → Time → Telemetry V → Telemetry V × Emitted V
  unfolding note_more counter_key emit
  emit_if_more domain event threshold reset values interval now t =
      if ltb_ℤ threshold (pos 1)
      then (t, nothing)
      else let (t', emit_now) =
          note_more (counter_key domain event values) (pos_part threshold) reset values interval now
            t in
        (t', if emit_now then emit domain event values t' else nothing)

  -- the test of `matchScope` on one pair of the scope
  abbrev pub matches_value : String → V → Option V → Bool
  matches_value k v none = false
  matches_value k v (some sv) = str_eq (fingerprint ((k, sv) ∷ [])) (fingerprint ((k, v) ∷ []))

  -- `matchScope`
  unfoldable pub match_scope : Dict V → Dict V → Bool
  match_scope stored [] = true
  match_scope stored ((k, v) ∷ scope) =
      if matches_value k v (lookup k stored) then match_scope stored scope else false

  -- the loop of `resetEventCounters`
  unfoldable pub delete_counters : String → Dict V → Dict (IfMoreState V) → Dict (IfMoreState V)
  unfolding match_scope
  delete_counters prefix scope [] = []
  delete_counters prefix scope ((k, st) ∷ states) =
      let rest = delete_counters prefix scope states in
      if starts_with k prefix && match_scope st.values scope then rest else (k, st) ∷ rest

  -- `resetEventCounters`
  unfoldable pub reset_event_counters : String → String → Dict V → Telemetry V → Telemetry V
  unfolding delete_counters counter_prefix
  reset_event_counters domain event scope t = record t {
    if_more_states = delete_counters (counter_prefix domain event) scope t.if_more_states;
  }
