-- ===== src/Telemetry/Examples.antt =====
-- telemetry/telemetry.go: tests and concrete runs.
use cliffhanger.Prelude.{
  ap, inl, contains, ◌+◌, ◌*◌, ◌<◌, String, ◌≡◌, refl, sym, ◌∙◌, ◌≢◌, ◌↔◌, true, false, Option,
  none, some, List, [], ◌∷◌, arith, str_eq, eq_iff, nat_eq, string_eq,
}
use cliffhanger.Prelude.Int.{pos, int_eq, Time}
use cliffhanger.Prelude.Dict.{Dict, lookup, insert}
use mathlib.Core.Bool.{false≢true}
use cliffhanger.Config.{
  TelemetryConfig, Default, DefaultStore, telemetry_of, set_telemetry, save_stamped,
}
use cliffhanger.Telemetry.{
  Telemetry, config, fresh, seeded, new_telemetry, default_topic, enable, next_validity,
}
use cliffhanger.Telemetry.Emit.{
  Published, nothing, message, emit, emit_if_more, reset_event_counters, count_call, note_more,
  match_scope, delete_counters, counter_key, counter_prefix,
}
use cliffhanger.Telemetry.Window.{IsTimed}
use cliffhanger.Telemetry.Runs.{
  WindowOp, wait, enable_op, validity_op, timer_op, window_run, window_run-IsTimed,
}
use cliffhanger.Telemetry.Throttle.{IsWanted, emit_iff, IsSpaced, passes, passes-IsSpaced}
use cliffhanger.Telemetry.Counting.{MoreCall, counted, elsewhere, count_run, counter}
use Prim.Native.String.{◌∷◌ as text_cons, [] as no_text}
use cliffhanger.Telemetry.Keys.{IsNulFree}
use cliffhanger.Telemetry.Scope.{IsReset, reset_event_counters-IsReset}
use cliffhanger.Telemetry.Sent.{emit_run, emit_run-counts}
use cliffhanger.Telemetry.Unsaved.{enable-unsaved}

text_ne : (s t : String) → str_eq s t ≡ false → s ≢ t
text_ne s t h e = false≢true (sym h ∙ (eq_iff s t).1 e)

abbrev plain : Default
plain = record {
  log_file = "app.log";
  log_level = "info";
  log_format = "text";
  log_revert_timeout = pos 0;
  log_revert_at = 0;
  restarts_count = pos 0;
  telemetry = none;
  configured_at = 0;
}

abbrev empty_store : DefaultStore
empty_store = record { current = plain; last_saved = plain }

abbrev quiet_store : DefaultStore
quiet_store =
    (let off : TelemetryConfig = record {
      enabled = false;
      enabled_at = 0;
      validity = pos 100;
      suppressed = none;
    } in
      record { current = record plain { telemetry = some off }; last_saved = plain })

abbrev enabled_store : DefaultStore
enabled_store =
    (let on : TelemetryConfig = record {
      enabled = true;
      enabled_at = 5;
      validity = pos 100;
      suppressed = some (record { domains = "gps" ∷ []; events = [] });
    } in
      record { current = record plain { telemetry = some on }; last_saved = plain })

abbrev opened : Option (Telemetry String) → Telemetry String
opened none = fresh "" empty_store
opened (some t) = t

-- a telemetry that is enabled for want of a configuration, at the instant 5
started : Telemetry String
unfolding new_telemetry
started = opened (new_telemetry "app" empty_store 5 true true)

abbrev ops : List WindowOp
ops =
    wait 10
    ∷ validity_op (pos 50)
    ∷ wait 40
    ∷ timer_op 1 true
    ∷ enable_op true
    ∷ timer_op 1 true
    ∷ []

window_run-IsTimed_example :
    let m = window_run ops (record { now = 5; telemetry = started }) in IsTimed m.now m.telemetry
unfolding started new_telemetry seeded telemetry_of set_telemetry save_stamped
window_run-IsTimed_example =
    window_run-IsTimed "app" empty_store 5 true true started ops (omega arith) refl

-- the timer of the first validity is stale at the end, and telemetry is enabled
run_test :
    (config (window_run ops (record { now = 5; telemetry = started })).telemetry).enabled ≡ true
unfolding window_run started config next_validity
run_test = refl

abbrev on : Telemetry String
on = fresh "app" enabled_store

abbrev sample : Dict String
sample = ("v", "1") ∷ []

abbrev crash : String
crash = "crash"

abbrev sent_crash : Published String
sent_crash = record { topic = default_topic; domain = "app"; event = crash; values = sample }

emit_iff_example : (emit "app" crash sample on ≡ message sent_crash) ↔ (
    ((config on).enabled ≡ true)
    × IsWanted (config on).suppressed "app" crash
    × (crash ≢ "")
    × (sent_crash ≡ record { topic = on.topic; domain = "app"; event = crash; values = sample }))
emit_iff_example = emit_iff "app" crash sample on sent_crash

suppressed_test : emit "gps" "lost" sample on ≡ nothing
unfolding emit
suppressed_test = refl

abbrev key_calls : List (String × Time)
key_calls = ("app/x", 10) ∷ ("app/y", 11) ∷ ("app/x", 12) ∷ ("app/x", 20) ∷ []

passes-IsSpaced_example : IsSpaced (pos 10) 0 (passes (pos 10) "app/x" key_calls on)
unfolding lookup
passes-IsSpaced_example = passes-IsSpaced (pos 10) "app/x" key_calls on

passes_test : passes (pos 10) "app/x" key_calls on ≡ 10 ∷ 20 ∷ []
unfolding passes lookup insert
passes_test = refl

-- the text of a value, in place of its JSON
abbrev print : Dict String → String
print [] = ""
print ((k, v) ∷ d) = v

abbrev more_calls : List (MoreCall String)
more_calls =
    counted 6
    ∷ elsewhere "other" 1 true [] (pos 5) 6
    ∷ counted 7
    ∷ counted 8
    ∷ counted 9
    ∷ counted 10
    ∷ []

emit_run-counts_example :
    let key = counter_key print "app" crash sample in
    let (n, end) = emit_run print "app" crash 2 sample (pos 0) more_calls on in
    ((counter key 2 sample (pos 0) end).count < 2)
    × (n * 2 + (counter key 2 sample (pos 0) end).count
        ≡ (counter key 2 sample (pos 0) on).count + 5)
unfolding counter lookup counter_key counter_prefix config contains
emit_run-counts_example =
    emit_run-counts print "app" crash 2 sample (pos 0) more_calls on refl
      (inl (λ e. cc), refl, refl) (text_ne crash "" refl) (omega arith) (omega arith)
      (
        omega arith,
        (
          λ e. text_ne "other" "app\0crash\01" refl e,
          (omega arith, (omega arith, (omega arith, (omega arith, tt)))),
        ),
      )

sent_test : (emit_run print "app" crash 2 sample (pos 0) more_calls on).0 ≡ 2
unfolding emit_run emit_if_more emit note_more count_call lookup insert counter_key counter_prefix
sent_test = refl

count_test : (count_run "key" 2 sample (pos 0) more_calls on).0 ≡ 2
unfolding count_run note_more count_call lookup insert
count_test = refl

abbrev counting : Telemetry String
counting = record on {
  if_more_states =
      ("a\0b\01", record { count = 1; last = 0; values = sample })
      ∷ ("a\0bb\01", record { count = 3; last = 0; values = sample })
      ∷ [];
}

a_IsNulFree : IsNulFree "a"
a_IsNulFree = (λ e. text_ne "a" "\0" refl (ap (λ c. text_cons c no_text) e), tt)

b_IsNulFree : IsNulFree "b"
b_IsNulFree = (λ e. text_ne "b" "\0" refl (ap (λ c. text_cons c no_text) e), tt)

reset_event_counters-IsReset_example :
    let key = counter_key print "a" "b" sample in
    IsReset print "a" "b" sample "a" "b"
      (lookup key counting.if_more_states)
      (lookup key (reset_event_counters print "a" "b" sample counting).if_more_states)
unfolding lookup
reset_event_counters-IsReset_example =
    reset_event_counters-IsReset print "a" "b" sample "a" "b" sample counting a_IsNulFree
      b_IsNulFree a_IsNulFree b_IsNulFree (refl, (refl, tt))

reset_test :
    (reset_event_counters print "a" "b" sample counting).if_more_states
    ≡ ("a\0bb\01", record { count = 3; last = 0; values = sample }) ∷ []
unfolding reset_event_counters delete_counters match_scope counter_prefix lookup
reset_test = refl

enable-unsaved_example :
    let t : Telemetry String = fresh "app" quiet_store in
    let (t', done) = enable true 7 false t in
    (done ≡ false) × ((config t').enabled ≡ true) × (t'.timer ≡ none) × ¬ IsTimed 7 t'
enable-unsaved_example = enable-unsaved 7 (fresh "app" quiet_store) refl

-- the key of a counter separates its parts by the zero character
nul_test : counter_key print "a" "b" sample ≡ "a\0b\01"
unfolding counter_key counter_prefix
nul_test = refl
