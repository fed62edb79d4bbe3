-- ===== src/Telemetry/Sent.antt =====
-- telemetry/telemetry.go: how many messages `EmitIfMore` sends.
use cliffhanger.Prelude.{
  ℕ, suc, ◌+◌, ◌*◌, ◌≤◌, ◌<◌, String, ◌≡◌, refl, ◌≢◌, inl, inr, Bool, true, false, List, [], ◌∷◌,
  arith, Bool-cases, if◌then◌else◌, nat_eq, string_eq,
}
use cliffhanger.Prelude.Int.{Time, pos, ◌≤ℤ◌, ltb_ℤ, int_eq, Duration}
use cliffhanger.Prelude.Dict.{Dict}
use cliffhanger.Telemetry.{Telemetry, config}
use cliffhanger.Telemetry.Emit.{
  Published, Emitted, nothing, nameless, message, emit, note_more, counter_key, emit_if_more,
}
use cliffhanger.Telemetry.Throttle.{IsWanted, emit_iff}
use cliffhanger.Telemetry.Counting.{
  MoreCall, counted, elsewhere, IsClocked, number_counted, count_run, counter, count_run-counts,
}

abbrev pub is_message : {V : Type 0} → Emitted V → Bool
is_message nothing = false
is_message nameless = false
is_message (message p) = true

module _ {V : Type 0} (fingerprint : Dict V → String) (domain event : String) (threshold : ℕ)
    (values : Dict V) (interval : Duration) where
  abbrev pub key : String
  key = counter_key fingerprint domain event values

  emit-alike :
      (now : Time) (p : Published V) (t : Telemetry V)
      → emit domain event values t ≡ message p
      → emit domain event values (note_more key threshold true values interval now t).0 ≡ message p
  unfolding emit note_more
  emit-alike now p t e = e

  emit_if_more-sends :
      (now : Time) (p : Published V) (t : Telemetry V)
      → 1 ≤ threshold
      → emit domain event values t ≡ message p
      → let (t', out) =
          emit_if_more fingerprint domain event (pos threshold) true values interval now t in
        let (kept, emits) = note_more key threshold true values interval now t in
        (t' ≡ kept) × (is_message out ≡ emits)
  unfolding emit_if_more
  emit_if_more-sends now p t l e =
      let enough : ltb_ℤ (pos threshold) (pos 1) ≡ false = ground arith in
      elim (Bool-cases (note_more key threshold true values interval now t).1) [
        | inl b ↦ rw (enough, b) (refl, rw (emit-alike now p t e) refl)
        | inr b ↦ rw (enough, b) (refl, refl)
      ]

  -- the calls in a row: how many of the counted ones send a message, and the state after them
  unfoldable pub emit_run : List (MoreCall V) → Telemetry V → ℕ × Telemetry V
  emit_run [] t = (0, t)
  emit_run (counted now ∷ calls) t =
      let (t', out) =
        emit_if_more fingerprint domain event (pos threshold) true values interval now t in
      let (n, end) = emit_run calls t' in (if is_message out then suc n else n, end)
  emit_run (elsewhere k th reset vs i now ∷ calls) t =
      emit_run calls (note_more k th reset vs i now t).0

  emit_run-count_run :
      (p : Published V) (calls : List (MoreCall V)) (t : Telemetry V)
      → 1 ≤ threshold
      → emit domain event values t ≡ message p
      → emit_run calls t ≡ count_run key threshold values interval calls t
  unfolding emit_run count_run
  emit_run-count_run p [] t l e = refl
  emit_run-count_run p (elsewhere k th reset vs i now ∷ calls) t l e =
      emit_run-count_run p calls (note_more k th reset vs i now t).0 l (unfold note_more emit in e)
  emit_run-count_run p (counted now ∷ calls) t l e =
      let (same, sends) = emit_if_more-sends now p t l e in
      let rest =
        emit_run-count_run p calls (note_more key threshold true values interval now t).0 l
          (emit-alike now p t e) in
      rw (same, sends, rest) refl

  -- While telemetry is enabled, the event has a name and is not suppressed, with a reset, a positive
  -- threshold and an interval that is not positive, and whatever is called for other keys in between, no call
  -- is lost: `EmitIfMore` sends one message for every `threshold` calls, counting on from the count before, and
  -- the rest, below the threshold, is the count after.
  pub emit_run-counts :
      (calls : List (MoreCall V)) (t : Telemetry V)
      → (config t).enabled ≡ true
      → IsWanted (config t).suppressed domain event
      → event ≢ ""
      → interval ≤ℤ pos 0
      → (counter key threshold values interval t).count < threshold
      → IsClocked key (counter key threshold values interval t).last calls
      → let (n, end) = emit_run calls t in
        ((counter key threshold values interval end).count < threshold)
        × (n * threshold + (counter key threshold values interval end).count
            ≡ (counter key threshold values interval t).count + number_counted calls)
  emit_run-counts calls t on wanted named i c k =
      let p : Published V = record {
        topic = t.topic;
        domain = domain;
        event = event;
        values = values;
      } in
      let sent = (emit_iff domain event values t p).1 (on, wanted, named, refl) in
      rw (emit_run-count_run p calls t (omega arith) sent)
        (count_run-counts key threshold values interval calls t i c k)
