-- ===== src/Telemetry/Counting.antt =====
-- telemetry/telemetry.go: how often `EmitIfMore` emits.
use cliffhanger.Prelude.{
  ℕ, suc, ◌+◌, ◌*◌, ◌≤◌, ◌<◌, String, ◌≡◌, refl, ap, ◌∙◌, ◌≢◌, Bool, true, false, List, [], ◌∷◌,
  arith, str_eq, eq_iff, eq_refl, if◌then◌else◌, nat_eq, string_eq,
}
use cliffhanger.Prelude.Int.{pos, ◌≤ℤ◌, int_eq, Time, Duration}
use cliffhanger.Prelude.Dict.{Dict, lookup, lookup-insert}
use cliffhanger.Telemetry.{IfMoreState, Telemetry}
use cliffhanger.Telemetry.Emit.{is_throttled, state_or_new, count_call, note_more}

-- A call of `EmitIfMore` for the counter at hand, or for another one with its own parameters.
pub data MoreCall (V : Type 0) : Type 0 where
  counted : Time → MoreCall V
  elsewhere : String → ℕ → Bool → Dict V → Duration → Time → MoreCall V

module _ {V : Type 0} where
  -- The calls said to be elsewhere are for other keys, and the clock of the counted ones does not go back.
  abbrev pub IsClocked : String → Time → List (MoreCall V) → Type 0
  IsClocked key last [] = Unit
  IsClocked key last (counted now ∷ calls) = (last ≤ now) × IsClocked key now calls
  IsClocked key last (elsewhere k _ _ _ _ _ ∷ calls) = (k ≢ key) × IsClocked key last calls

  abbrev pub number_counted : List (MoreCall V) → ℕ
  number_counted [] = 0
  number_counted (counted now ∷ calls) = suc (number_counted calls)
  number_counted (elsewhere _ _ _ _ _ _ ∷ calls) = number_counted calls

  IsClocked-before :
      (key : String) (first last : Time) (calls : List (MoreCall V))
      → first ≤ last
      → IsClocked key last calls
      → IsClocked key first calls
  IsClocked-before key first last [] p h = tt
  IsClocked-before key first last (counted now ∷ calls) p (q, h) = (omega arith, h)
  IsClocked-before key first last (elsewhere k _ _ _ _ _ ∷ calls) p (q, h) =
      (q, IsClocked-before key first last calls p h)

not_throttled :
    (now last : Time) (interval : Duration)
    → interval ≤ℤ pos 0
    → last ≤ now
    → is_throttled now last interval ≡ false
not_throttled now last interval p q = ground arith

tally :
    (n th c d e k : ℕ) (b : Bool)
    → (if b then th else 0) + d ≡ suc c
    → n * th + e ≡ d + k
    → (if b then suc n else n) * th + e ≡ c + suc k
tally n th c d e k true p q = omega arith
tally n th c d e k false p q = omega arith

module _ {V : Type 0} (key : String) (threshold : ℕ) (values : Dict V) (interval : Duration) where
  -- the calls in a row: how many of the counted ones emit, and the state after them
  unfoldable pub count_run : List (MoreCall V) → Telemetry V → ℕ × Telemetry V
  count_run [] t = (0, t)
  count_run (counted now ∷ calls) t =
      let (t', emits) = note_more key threshold true values interval now t in
      let (n, end) = count_run calls t' in (if emits then suc n else n, end)
  count_run (elsewhere k th reset vs i now ∷ calls) t =
      count_run calls (note_more k th reset vs i now t).0

  unfoldable pub counter : Telemetry V → IfMoreState V
  counter t = state_or_new values (lookup key t.if_more_states)

  one_call :
      (now : Time) (st : IfMoreState V)
      → interval ≤ℤ pos 0
      → st.count < threshold
      → st.last ≤ now
      → let (st', emits) = count_call threshold true interval now st in
        (st'.count < threshold)
        × ((if emits then threshold else 0) + st'.count ≡ suc st.count)
        × (st'.last ≤ now)
  unfolding count_call
  one_call now st p c l = rw (not_throttled now st.last interval p l) (ground arith)

  counter_after :
      (now : Time) (t : Telemetry V)
      → (counter (note_more key threshold true values interval now t).0
          ≡ (count_call threshold true interval now (counter t)).0)
        × ((note_more key threshold true values interval now t).1
            ≡ (count_call threshold true interval now (counter t)).1)
  unfolding note_more counter
  counter_after now t =
      let st = (count_call threshold true interval now (counter t)).0 in
      (rw (lookup-insert key key st t.if_more_states, eq_refl key) refl, refl)

  counter_elsewhere :
      (k : String) (th : ℕ) (reset : Bool) (vs : Dict V) (i : Duration) (now : Time)
      (t : Telemetry V)
      → k ≢ key
      → counter (note_more k th reset vs i now t).0 ≡ counter t
  unfolding note_more counter
  counter_elsewhere k th reset vs i now t n =
      let st = (count_call th reset i now (state_or_new vs (lookup k t.if_more_states))).0 in
      let other : str_eq k key ≡ false = ground (arith, eq_iff k key) in
      rw (lookup-insert k key st t.if_more_states, other) refl

  -- With a reset and an interval that is not positive, and whatever is called for other keys in between,
  -- no call is lost: `emitIfMore` emits once for every `threshold` calls, counting on from the count before,
  -- and the rest, below the threshold, is the count after.
  pub count_run-counts :
      (calls : List (MoreCall V)) (t : Telemetry V)
      → interval ≤ℤ pos 0
      → (counter t).count < threshold
      → IsClocked key (counter t).last calls
      → let (n, end) = count_run calls t in
        ((counter end).count < threshold)
        × (n * threshold + (counter end).count ≡ (counter t).count + number_counted calls)
  unfolding count_run
  count_run-counts [] t p c k = (c, omega arith)
  count_run-counts (counted now ∷ calls) t p c (l, k) =
      let (t', emits) = note_more key threshold true values interval now t in
      let (below, sum, at) = one_call now (counter t) p c l in
      let (same, also) = counter_after now t in
      let rest =
        count_run-counts calls t' p (rw same below)
          (IsClocked-before key _ now calls (rw same at) k) in
      (
        rest.0,
        tally _ threshold _ _ _ _ emits (rw also sum)
            (rest.1 ∙ ap (λ st. st.count + number_counted calls) same),
      )
  count_run-counts (elsewhere a th reset vs i now ∷ calls) t p c (n, k) =
      let same = counter_elsewhere a th reset vs i now t n in
      rw same at
        (count_run-counts calls (note_more a th reset vs i now t).0 p (rw same c) (rw same k))
