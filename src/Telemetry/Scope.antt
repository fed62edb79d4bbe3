-- ===== src/Telemetry/Scope.antt =====
-- telemetry/telemetry.go: which counters `ResetEventCounters` deletes.
use cliffhanger.Prelude.{
  String, ◌≡◌, refl, sym, ap, ◌∙◌, ◌⊎◌, inl, inr, true, Option, none, some, [], ◌∷◌, str_eq, eq_iff,
  Bool-cases, Option-cases, nat_eq, string_eq, All,
}
use cliffhanger.Prelude.Int.{int_eq}
use cliffhanger.Prelude.Dict.{Dict, lookup}
use mathlib.Core.Bool.{false≢true}
use text.Mathlib.Text.{starts_with}
use text.Mathlib.TextEquality.{starts_with_iff}
use text.Mathlib.TextPositions.{starts_with-append}
use cliffhanger.Telemetry.{IfMoreState, Telemetry}
use cliffhanger.Telemetry.Emit.{counter_key, counter_prefix, match_scope, reset_event_counters}
use cliffhanger.Telemetry.Keys.{IsNulFree, counter_prefix-same}
use cliffhanger.Telemetry.Reset.{HasKeysOnce, kept, lookup-delete_counters}

module _ {V : Type 0} (fingerprint : Dict V → String) where
  -- the values have every pair of the scope, by the texts of the pairs
  abbrev pub Matches : Dict V → Dict V → Type 0
  Matches values scope =
      All
        (λ pair.
          (v : V) × (lookup pair.0 values ≡ some v)
          × (fingerprint ((pair.0, v) ∷ []) ≡ fingerprint (pair ∷ [])))
        scope

  match_scope-Matches :
      (values scope : Dict V) → match_scope fingerprint values scope ≡ true → Matches values scope
  unfolding match_scope
  match_scope-Matches values [] h = tt
  match_scope-Matches values ((k, v) ∷ scope) h = elim (Option-cases (lookup k values)) [
    | inl q ↦ absurd (cc (rw q at h))
    | inr (sv, q) ↦
        elim (Bool-cases (str_eq (fingerprint ((k, sv) ∷ [])) (fingerprint ((k, v) ∷ [])))) [
          | inl e ↦ ((sv, q, (eq_iff _ _).0 e), match_scope-Matches values scope (rw (q, e) at h))
          | inr e ↦ absurd (cc (rw (q, e) at h))
        ]
  ]

  Matches-match_scope :
      (values scope : Dict V) → Matches values scope → match_scope fingerprint values scope ≡ true
  unfolding match_scope
  Matches-match_scope values [] h = refl
  Matches-match_scope values ((k, v) ∷ scope) ((sv, q, e), h) =
      rw (q, (eq_iff _ _).1 e) (Matches-match_scope values scope h)

  module _ (domain event : String) (scope : Dict V) (d e : String) where
    abbrev pub IsMeant : IfMoreState V → Type 0
    IsMeant st = (domain ≡ d) × (event ≡ e) × Matches st.values scope

    -- what becomes of the counter of an event `e` of the domain `d`: it is deleted exactly when it is of
    -- the event that is reset and its values match the scope, and else it is kept
    abbrev pub IsReset : Option (IfMoreState V) → Option (IfMoreState V) → Type 0
    IsReset before after =
        ((before ≡ none) × (after ≡ none))
        ⊎ ((st : IfMoreState V) × (before ≡ some st)
            × ((IsMeant st × (after ≡ none)) ⊎ ((IsMeant st → ⊥) × (after ≡ some st))))

    kept-IsReset :
        (values : Dict V) (st : IfMoreState V)
        → IsNulFree domain
        → IsNulFree event
        → IsNulFree d
        → IsNulFree e
        → let after =
            kept fingerprint
              (counter_prefix domain event)
              scope
              (counter_key fingerprint d e values)
              (some st) in
          (IsMeant st × (after ≡ none)) ⊎ ((IsMeant st → ⊥) × (after ≡ some st))
    unfolding counter_key
    kept-IsReset values st hdomain hevent hd he =
        let prefix = counter_prefix domain event in
        let key = counter_key fingerprint d e values in
        elim (Bool-cases (starts_with key prefix)) [
          | inr s ↦ inr (
            λ (a, b, m).
                false≢true (
                  sym s ∙ rw (a, b) (starts_with-append (counter_prefix d e) (fingerprint values))),
            rw s refl,
          )
          | inl s ↦ elim (Bool-cases (match_scope fingerprint st.values scope)) [
            | inr m ↦ inr (
              λ (a, b, k). false≢true (sym m ∙ Matches-match_scope st.values scope k),
              rw (s, m) refl,
            )
            | inl m ↦
                (let (u, q) = (starts_with_iff key prefix).0 s in
                  let (a, b) =
                    counter_prefix-same d e domain event (fingerprint values) u hd he hdomain hevent
                      q in
                  inl ((a, b, match_scope-Matches st.values scope m), rw (s, m) refl))
          ]
        ]

    -- Where no name has a zero character and no key occurs twice, a reset deletes a counter exactly when it is
    -- of the event and the domain named and its values match the scope, and keeps every other as it is.
    pub reset_event_counters-IsReset :
        (values : Dict V) (t : Telemetry V)
        → IsNulFree domain
        → IsNulFree event
        → IsNulFree d
        → IsNulFree e
        → HasKeysOnce t.if_more_states
        → let key = counter_key fingerprint d e values in
          IsReset
            (lookup key t.if_more_states)
            (lookup key (reset_event_counters fingerprint domain event scope t).if_more_states)
    unfolding reset_event_counters
    reset_event_counters-IsReset values t hdomain hevent hd he once =
        let key = counter_key fingerprint d e values in
        let prefix = counter_prefix domain event in
        let law = lookup-delete_counters fingerprint prefix scope key t.if_more_states once in
        elim (Option-cases (lookup key t.if_more_states)) [
          | inl q ↦ inl (q, law ∙ ap (kept fingerprint prefix scope key) q)
          | inr (st, q) ↦
              (let same = law ∙ ap (kept fingerprint prefix scope key) q in
                inr (
                  st,
                  q,
                  elim (kept-IsReset values st hdomain hevent hd he) [
                    | inl (m, k) ↦ inl (m, same ∙ k)
                    | inr (m, k) ↦ inr (m, same ∙ k)
                  ],
                ))
        ]
