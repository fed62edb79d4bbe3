-- ===== src/Device/Report/Laws.antt =====
-- adapter/service/*/service.go: when a report is sent.
use cliffhanger.Prelude.{
  String, ◌≡◌, refl, ◌∙◌, ◌↔◌, inl, inr, Bool, true, false, not, ◌&&◌, ◌||◌, Option, none, some,
  str_eq, Bool-cases, nat_eq, string_eq,
}
use cliffhanger.Prelude.Int.{int_eq, Time}
use cliffhanger.Cache.Reporter.{
  Strategy, strategy_requires, ReportingCache, find, report_required, reported,
}
use cliffhanger.Cache.Reporter.Laws.{find-reported}
use cliffhanger.Device.Report.{Call, choose, Message, sent, skipped, report_value, send_report}

-- the choice of a method, with its tests as variables
choose_iff {ℓ κ} :
    {C : Type ℓ} {P : Type κ} (force due taken : Bool) (c noted : C) (m n : Message P)
    → ((choose force due taken c noted n).1 ≡ sent m)
      ↔ (((force || due) ≡ true) × (taken ≡ true) × (n ≡ m))
choose_iff true due true c noted m n = (λ h. (refl, refl, cc), λ (_, _, e). cc)
choose_iff true due false c noted m n = (λ h. absurd cc, λ (_, t, _). absurd cc)
choose_iff false true true c noted m n = (λ h. (refl, refl, cc), λ (_, _, e). cc)
choose_iff false true false c noted m n = (λ h. absurd cc, λ (_, t, _). absurd cc)
choose_iff false false taken c noted m n = (λ h. absurd cc, λ (d, _, _). absurd cc)

choose_kept {ℓ κ} :
    {C : Type ℓ} {P : Type κ} (force due : Bool) (c noted : C) (m : Message P)
    → (choose force due false c noted m).0 ≡ c
choose_kept true due c noted m = refl
choose_kept false true c noted m = refl
choose_kept false false c noted m = refl

module _ {ℓ κ} {A : Type ℓ} {P : Type κ} (deep_equal : A → A → Bool) where
  -- A method sends a message exactly when the value is read, the report is forced or required, and the
  -- transport takes the message, which is then the one made of that value.
  pub send_report_iff :
      (call : Call) (force : Bool) (strategy : Strategy) (key sub_key : String)
      (message : A → Message P) (reading : Option A) (c : ReportingCache A) (m : Message P)
      → ((send_report deep_equal call force strategy key sub_key message reading c).1 ≡ sent m) ↔ (
          (v : A) × (reading ≡ some v)
          × ((force || report_required deep_equal call.asked c strategy key sub_key v) ≡ true)
          × (call.is_taken ≡ true)
          × (message v ≡ m))
  unfolding send_report report_value
  send_report_iff call force strategy key sub_key message none c m =
      (λ h. absurd cc, λ (v, q, _, _, _). absurd cc)
  send_report_iff call force strategy key sub_key message (some v) c m =
      let due = report_required deep_equal call.asked c strategy key sub_key v in
      let (here, there) =
        choose_iff force due call.is_taken c (reported call.noted key sub_key v c) m (message v) in
      (
        λ h. (let (d, t, e) = here h in (v, refl, d, t, e)),
        λ (w, q, d, t, e). (let same : v ≡ w = cc in there (rw same d, t, rw same e)),
      )

  -- Whatever is not sent leaves the cache as it was, so that the report stays due.
  pub unsent_kept :
      (call : Call) (force : Bool) (strategy : Strategy) (key sub_key : String)
      (message : A → Message P) (reading : Option A) (c : ReportingCache A)
      → call.is_taken ≡ false
      → (send_report deep_equal call force strategy key sub_key message reading c).0 ≡ c
  unfolding send_report report_value
  unsent_kept call force strategy key sub_key message none c q = refl
  unsent_kept call force strategy key sub_key message (some v) c q =
      rw q (choose_kept force _ c (reported call.noted key sub_key v c) (message v))

  -- A value that is noted is not sent again unless the strategy asks for it, told whether the value differs
  -- and when the first was noted.
  pub noted_skips :
      (call : Call) (strategy : Strategy) (key sub_key : String) (message : A → Message P)
      (t : Time) (v w : A) (c : ReportingCache A)
      → find c key sub_key ≡ some (record { reported = t; val = v })
      → strategy_requires strategy call.asked (not (deep_equal v w)) t ≡ false
      → send_report deep_equal call false strategy key sub_key message (some w) c ≡ (c, skipped)
  unfolding send_report report_value report_required
  noted_skips call strategy key sub_key message t v w c q r = rw (q, report_required, r) refl

  -- A method changes what is noted at no other pair of keys.
  pub find-other :
      (call : Call) (force : Bool) (strategy : Strategy) (key sub_key k s : String)
      (message : A → Message P) (reading : Option A) (c : ReportingCache A)
      → (str_eq key k && str_eq sub_key s) ≡ false
      → find (send_report deep_equal call force strategy key sub_key message reading c).0 k s
        ≡ find c k s
  unfolding send_report report_value
  find-other call force strategy key sub_key k s message none c q = refl
  find-other call force strategy key sub_key k s message (some v) c q =
      let due = report_required deep_equal call.asked c strategy key sub_key v in
      let new = find-reported call.noted key sub_key k s v c in
      elim (Bool-cases (not force && not due)) [
        | inl a ↦ rw a refl
        | inr a ↦ elim (Bool-cases call.is_taken) [
          | inl b ↦ rw (a, b) (new ∙ rw q refl)
          | inr b ↦ rw (a, b) refl
        ]
      ]
