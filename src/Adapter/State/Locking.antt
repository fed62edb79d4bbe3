-- ===== src/Adapter/State/Locking.antt =====
-- Where the setters of adapter/state.go return, and where they wait for a lock that they hold.
use cliffhanger.Prelude.{
  ℕ, String, ◌≡◌, refl, ◌≢◌, ◌↔◌, Bool, true, false, Option, none, some, str_eq, if◌then◌else◌,
  nat_eq, string_eq,
}
use cliffhanger.Prelude.Int.{int_eq}
use cliffhanger.Adapter.State.{
  State, Saving, Outcome, returned, stuck, saved, failed_old, failed_new, save, set_state,
  set_inclusion_checksum, read_info, read_state,
}

abbrev pub Returns : Outcome (State × Bool) → Type 0
Returns o = (r : State × Bool) × (o ≡ returned r)

never : Returns stuck → ⊥
never (r, e) = cc (e)

-- The readers of a thing's state return, whether the text can be read or not, where no writer waits for
-- the lock meanwhile.
pub read-Returns :
    (readable : String → Bool) (i : ℕ) (s : State)
    → Returns (read_info readable i s) × Returns (read_state readable i s)
unfolding read_info read_state
read-Returns readable i s = (
  test_returns (str_eq (s.cells i).info "") (readable (s.cells i).info),
  test_returns (str_eq (s.cells i).state "") (readable (s.cells i).state),
)
  where
    test_returns :
        (b c : Bool)
        → Returns (
            if b then returned (s, true) else if c then returned (s, true) else returned (s, false))
    test_returns true c = ((s, true), refl)
    test_returns false true = ((s, true), refl)
    test_returns false false = ((s, false), refl)

-- `SetState` returns exactly where the model can be marshalled and the save succeeds: on each of its
-- error paths it asks for the lock that it holds, to name the thing, and never returns.
pub set_state-stuck :
    (marshalled : Option String) (w : Saving) (i : ℕ) (s : State)
    → Returns (set_state marshalled w i s) ↔ ((marshalled ≢ none) × (w ≡ saved))
unfolding set_state save
set_state-stuck none w i s = (λ r. absurd (never r), λ p. absurd (p.0 refl))
set_state-stuck (some text) saved i s = (λ r. (λ e. cc, refl), λ p. (_, refl))
set_state-stuck (some text) failed_old i s = (λ r. absurd (never r), λ p. cc (p.1))
set_state-stuck (some text) failed_new i s = (λ r. absurd (never r), λ p. cc (p.1))

-- `SetInclusionChecksum` returns exactly where the save succeeds.
pub set_inclusion_checksum-stuck :
    (checksum : ℕ) (w : Saving) (i : ℕ) (s : State)
    → Returns (set_inclusion_checksum checksum w i s) ↔ (w ≡ saved)
unfolding set_inclusion_checksum save
set_inclusion_checksum-stuck checksum saved i s = (λ r. refl, λ p. (_, refl))
set_inclusion_checksum-stuck checksum failed_old i s = (λ r. absurd (never r), λ p. cc (p))
set_inclusion_checksum-stuck checksum failed_new i s = (λ r. absurd (never r), λ p. cc (p))
