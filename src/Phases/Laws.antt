-- ===== src/Phases/Laws.antt =====
-- The two directions between phases and phase modes agree (types/types.go, utils/phases.go).
use cliffhanger.Prelude.{
  ◌≡◌, refl, ◌≢◌, ◌⊎◌, inl, inr, List, [], ◌∷◌, arith, nat_eq, string_eq, length, All,
}
use cliffhanger.Prelude.Int.{int_eq}
use cliffhanger.Phases.{
  Phase, l1, l2, l3, other_phase, GridType, grid_it, grid_tt, grid_tn, grid_unknown, other_grid,
  unknown, has_phase, phase_modes, tn_mode, it_mode, phase_mode, phases, effective_phases_cnt,
}

tn-phases :
    (ps : List Phase) (p : Phase)
    → tn_mode ps ≢ unknown
    → has_phase (phases (tn_mode ps)) p ≡ has_phase ps p
unfolding tn_mode phases has_phase
tn-phases [] p n = absurd (n refl)
tn-phases (l1 ∷ []) p n = refl
tn-phases (l2 ∷ []) p n = refl
tn-phases (l3 ∷ []) p n = refl
tn-phases (other_phase s ∷ []) p n = absurd (n refl)
tn-phases (a ∷ b ∷ []) p n = ground arith
tn-phases (a ∷ b ∷ c ∷ []) p n = ground arith
tn-phases (a ∷ b ∷ c ∷ d ∷ r) p n = absurd (n refl)

it-phases :
    (ps : List Phase) (p : Phase)
    → it_mode ps ≢ unknown
    → has_phase (phases (it_mode ps)) p ≡ has_phase ps p
unfolding it_mode phases has_phase
it-phases [] p n = absurd (n refl)
it-phases (a ∷ []) p n = absurd (n refl)
it-phases (a ∷ b ∷ []) p n = ground arith
it-phases (a ∷ b ∷ c ∷ []) p n = ground arith
it-phases (a ∷ b ∷ c ∷ d ∷ r) p n = absurd (n refl)

-- When the phase mode of the given phases on a grid is known, the phases of that mode are the given
-- phases: a phase is among the ones exactly when it is among the others.
pub phase_mode-phases :
    (g : GridType) (ps : List Phase) (p : Phase)
    → phase_mode g ps ≢ unknown
    → has_phase (phases (phase_mode g ps)) p ≡ has_phase ps p
unfolding phase_mode
phase_mode-phases grid_tn ps p n = tn-phases ps p n
phase_mode-phases grid_it ps p n = it-phases ps p n
phase_mode-phases grid_tt ps p n = it-phases ps p n
phase_mode-phases grid_unknown ps p n = absurd (n refl)
phase_mode-phases (other_grid s) ps p n = absurd (n refl)

-- Every phase mode of the list of modes is found again from its own phases, on a TN grid or on an IT
-- grid, and a TT grid finds the same mode as an IT grid.
pub phases-phase_mode :
    All
      (λ m.
        (phase_mode grid_tn (phases m) ≡ m ⊎ phase_mode grid_it (phases m) ≡ m)
        × (phase_mode grid_tt (phases m) ≡ phase_mode grid_it (phases m)))
      phase_modes
unfolding phase_mode tn_mode it_mode has_phase phases phase_modes
phases-phase_mode = (
  (inl refl, refl),
  (
    (inl refl, refl),
    (
      (inl refl, refl),
      (
        (inl refl, refl),
        (
          (inl refl, refl),
          (
            (inl refl, refl),
            ((inr refl, refl), ((inr refl, refl), ((inr refl, refl), ((inr refl, refl), tt)))),
          ),
        ),
      ),
    ),
  ),
)

-- The effective number of phases of a known mode of a TN grid is the number of phases it was made of.
pub effective_phases_cnt-tn_mode :
    (ps : List Phase) → tn_mode ps ≢ unknown → effective_phases_cnt (tn_mode ps) ≡ length ps
unfolding tn_mode has_phase effective_phases_cnt
effective_phases_cnt-tn_mode [] n = absurd (n refl)
effective_phases_cnt-tn_mode (l1 ∷ []) n = refl
effective_phases_cnt-tn_mode (l2 ∷ []) n = refl
effective_phases_cnt-tn_mode (l3 ∷ []) n = refl
effective_phases_cnt-tn_mode (other_phase s ∷ []) n = absurd (n refl)
effective_phases_cnt-tn_mode (a ∷ b ∷ []) n = ground arith
effective_phases_cnt-tn_mode (a ∷ b ∷ c ∷ []) n = ground arith
effective_phases_cnt-tn_mode (a ∷ b ∷ c ∷ d ∷ r) n = absurd (n refl)
