-- ===== src/Telemetry/Reset.antt =====
-- telemetry/telemetry.go: what `ResetEventCounters` forgets, and that keys stay unrepeated.
use cliffhanger.Prelude.{
  String, ◌≡◌, refl, sym, ap, ◌∙◌, inl, inr, false, ◌&&◌, Option, none, some, [], ◌∷◌, arith,
  str_eq, eq_iff, eq_refl, if◌then◌else◌, Bool-cases, nat_eq, string_eq,
}
use cliffhanger.Prelude.Int.{int_eq}
use cliffhanger.Prelude.Dict.{Dict, lookup, insert, lookup-insert}
use text.Mathlib.Text.{starts_with}
use cliffhanger.Telemetry.{IfMoreState}
use cliffhanger.Telemetry.Emit.{match_scope, delete_counters}

-- No key occurs twice.
abbrev pub HasKeysOnce : {A : Type 0} → Dict A → Type 0
HasKeysOnce [] = Unit
HasKeysOnce (entry ∷ rest) = (lookup entry.0 rest ≡ none) × HasKeysOnce rest

pub insert-HasKeysOnce :
    {A : Type 0} (key : String) (value : A) (m : Dict A)
    → HasKeysOnce m
    → HasKeysOnce (insert key value m)
unfolding insert lookup
insert-HasKeysOnce key value [] h = (refl, tt)
insert-HasKeysOnce key value (entry ∷ rest) (new, h) = elim (Bool-cases (str_eq entry.0 key)) [
  | inl q ↦ rw q ((rw ((eq_iff entry.0 key).0 q) at new), h)
  | inr q ↦
      (let other : str_eq key entry.0 ≡ false =
          ground (arith, eq_iff key entry.0, eq_iff entry.0 key) in
        rw q (
          lookup-insert key entry.0 value rest ∙ rw other new,
          insert-HasKeysOnce key value rest h,
        ))
]

module _ {V : Type 0} (fingerprint : Dict V → String) (prefix : String) (scope : Dict V) where
  -- what a reset leaves of a counter
  abbrev pub kept : String → Option (IfMoreState V) → Option (IfMoreState V)
  kept key none = none
  kept key (some st) =
      if starts_with key prefix && match_scope fingerprint st.values scope then none else some st

  -- `ResetEventCounters` deletes the counters whose key has the prefix of the domain and the event and whose
  -- values match the scope, and changes no other.
  pub lookup-delete_counters :
      (key : String) (states : Dict (IfMoreState V))
      → HasKeysOnce states
      → lookup key (delete_counters fingerprint prefix scope states) ≡ kept key (lookup key states)
  unfolding lookup delete_counters
  lookup-delete_counters key [] h = refl
  lookup-delete_counters key ((k, st) ∷ states) (new, h) =
      let rest = lookup-delete_counters key states h in
      elim (Bool-cases (str_eq k key)) [
        | inl q ↦
            elim (Bool-cases (starts_with k prefix && match_scope fingerprint st.values scope)) [
              | inl d ↦
                  rw (sym ((eq_iff k key).0 q), d, eq_refl k, d)
                    (lookup-delete_counters k states h ∙ ap (kept k) new)
              | inr d ↦ rw (sym ((eq_iff k key).0 q), d, eq_refl k, d) refl
            ]
        | inr q ↦
            elim (Bool-cases (starts_with k prefix && match_scope fingerprint st.values scope)) [
              | inl d ↦ rw (q, d) rest
              | inr d ↦ rw (q, d) (rw q rest)
            ]
      ]
