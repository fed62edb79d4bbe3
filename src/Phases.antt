-- ===== src/Phases.antt =====
-- types/types.go and utils/phases.go: the phases that a phase mode of a grid uses. The string types of
-- the source are data types with a constructor for all other texts.
mod Laws
mod Examples
use cliffhanger.Prelude.{
  ℕ, String, Bool, true, false, ◌&&◌, ◌||◌, List, [], ◌∷◌, str_eq, if◌then◌else◌,
}
use cliffhanger.Prelude.Int.{ℤ, pos, eqb_ℤ}

pub data Phase : Type 0 where
  l1 l2 l3 : Phase
  other_phase : String → Phase

pub data GridType : Type 0 where
  grid_it grid_tt grid_tn grid_unknown : GridType
  other_grid : String → GridType

-- `other_mode` is any text that is no constant.
pub data PhaseMode : Type 0 where
  nl1l2l3 nl1l2 nl2l3 nl1 nl2 nl3 l1l2l3 l1l2 l2l3 l3l1 unknown : PhaseMode
  other_mode : String → PhaseMode

-- `==` of phases
abbrev pub same_phase : Phase → Phase → Bool
same_phase l1 l1 = true
same_phase l2 l2 = true
same_phase l3 l3 = true
same_phase (other_phase s) (other_phase t) = str_eq s t
same_phase _ _ = false

-- slices.Contains
unfoldable pub has_phase : List Phase → Phase → Bool
has_phase [] p = false
has_phase (q ∷ rest) p = same_phase p q || has_phase rest p

-- `PhaseModes`
unfoldable pub phase_modes : List PhaseMode
phase_modes = nl1l2l3 ∷ nl1l2 ∷ nl2l3 ∷ nl1 ∷ nl2 ∷ nl3 ∷ l1l2l3 ∷ l1l2 ∷ l2l3 ∷ l3l1 ∷ []

abbrev pub single_mode : Phase → PhaseMode
single_mode l1 = nl1
single_mode l2 = nl2
single_mode l3 = nl3
single_mode (other_phase s) = unknown

-- the case of a TN grid, by the number of phases
unfoldable pub tn_mode : List Phase → PhaseMode
unfolding has_phase
tn_mode (a ∷ []) = single_mode a
tn_mode (a ∷ b ∷ []) =
    let ps = a ∷ b ∷ [] in
    if has_phase ps l1 && has_phase ps l2
    then nl1l2
    else if has_phase ps l2 && has_phase ps l3
    then nl2l3
    else unknown
tn_mode (a ∷ b ∷ c ∷ []) =
    let ps = a ∷ b ∷ c ∷ [] in
    if has_phase ps l1 && has_phase ps l2 && has_phase ps l3 then nl1l2l3 else unknown
tn_mode _ = unknown

-- the case of an IT or TT grid
unfoldable pub it_mode : List Phase → PhaseMode
unfolding has_phase
it_mode (a ∷ b ∷ []) =
    let ps = a ∷ b ∷ [] in
    if has_phase ps l1 && has_phase ps l2
    then l1l2
    else if has_phase ps l2 && has_phase ps l3
    then l2l3
    else if has_phase ps l3 && has_phase ps l1
    then l3l1
    else unknown
it_mode (a ∷ b ∷ c ∷ []) =
    let ps = a ∷ b ∷ c ∷ [] in
    if has_phase ps l1 && has_phase ps l2 && has_phase ps l3 then l1l2l3 else unknown
it_mode _ = unknown

-- `PhaseMode`
unfoldable pub phase_mode : GridType → List Phase → PhaseMode
unfolding tn_mode it_mode
phase_mode grid_tn ps = tn_mode ps
phase_mode grid_it ps = it_mode ps
phase_mode grid_tt ps = it_mode ps
phase_mode _ ps = unknown

-- `SupportedPhaseModes`
unfoldable pub supported_phase_modes : GridType → ℤ → PhaseMode → List PhaseMode
supported_phase_modes grid_tn n m =
    if eqb_ℤ n (pos 3) then nl1 ∷ nl2 ∷ nl3 ∷ nl1l2l3 ∷ [] else m ∷ []
supported_phase_modes grid_it n m =
    if eqb_ℤ n (pos 3) then l1l2 ∷ l2l3 ∷ l3l1 ∷ l1l2l3 ∷ [] else m ∷ []
supported_phase_modes grid_tt n m =
    if eqb_ℤ n (pos 3) then l1l2 ∷ l2l3 ∷ l3l1 ∷ l1l2l3 ∷ [] else m ∷ []
supported_phase_modes _ n m = unknown ∷ []

-- `Phases` of a mode
unfoldable pub phases : PhaseMode → List Phase
phases nl1l2l3 = l1 ∷ l2 ∷ l3 ∷ []
phases nl1l2 = l1 ∷ l2 ∷ []
phases nl2l3 = l2 ∷ l3 ∷ []
phases nl1 = l1 ∷ []
phases nl2 = l2 ∷ []
phases nl3 = l3 ∷ []
phases l1l2l3 = l1 ∷ l2 ∷ l3 ∷ []
phases l1l2 = l1 ∷ l2 ∷ []
phases l2l3 = l2 ∷ l3 ∷ []
phases l3l1 = l1 ∷ l3 ∷ []
phases _ = l1 ∷ l2 ∷ l3 ∷ []

-- `EffectivePhasesCnt`
unfoldable pub effective_phases_cnt : PhaseMode → ℕ
effective_phases_cnt nl1l2l3 = 3
effective_phases_cnt l1l2l3 = 3
effective_phases_cnt nl1l2 = 2
effective_phases_cnt nl2l3 = 2
effective_phases_cnt nl1 = 1
effective_phases_cnt nl2 = 1
effective_phases_cnt nl3 = 1
effective_phases_cnt l1l2 = 1
effective_phases_cnt l2l3 = 1
effective_phases_cnt l3l1 = 1
effective_phases_cnt _ = 3
