-- ===== src/Phases/Examples.antt =====
-- Instances of the laws of phase modes.
use cliffhanger.Prelude.{◌≡◌, refl, ◌≢◌, List, [], ◌∷◌, arith, nat_eq, string_eq}
use cliffhanger.Prelude.Int.{int_eq}
use cliffhanger.Phases.{
  Phase, l2, l3, grid_it, l2l3, unknown, has_phase, it_mode, phase_mode, phases,
}
use cliffhanger.Phases.Laws.{phase_mode-phases}

abbrev two_phases : List Phase
two_phases = l3 ∷ l2 ∷ []

known : phase_mode grid_it two_phases ≡ l2l3
unfolding phase_mode it_mode has_phase
known = refl

it_unknown : phase_mode grid_it two_phases ≢ unknown
unfolding phase_mode it_mode has_phase
it_unknown = ground arith

phase_mode-phases_example :
    has_phase (phases (phase_mode grid_it two_phases)) l3 ≡ has_phase two_phases l3
phase_mode-phases_example = phase_mode-phases grid_it two_phases l3 it_unknown
