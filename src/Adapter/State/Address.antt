-- ===== src/Adapter/State/Address.antt =====
-- The addresses of adapter/state.go are never given twice, whatever saves fail and however often the
-- program starts again.
use cliffhanger.Prelude.{
  String, ◌≡◌, refl, sym, ◌∙◌, ◌⊎◌, inl, inr, Option, none, some, List, [], ◌∷◌, arith, nat_eq,
  string_eq,
}
use cliffhanger.Prelude.Int.{ℤ, pos, ◌+ℤ◌, ◌≤ℤ◌, ◌<ℤ◌, int_eq, int_laws}
use cliffhanger.Adapter.State.{
  ThingStateModel, Snapshot, State, Saving, saved, failed_old, failed_new, save, snapshot,
  acquire_address, add, remove_thing, new_state,
}

-- What happens to the state as far as addresses go; a restart reads the file again.
pub data Event : Type 0 where
  acquire : Saving → Event
  adding : Saving → ThingStateModel → Event
  removing : Saving → String → Event
  restart : Event

unfoldable pub after : Event → State → State
after (acquire w) s = (acquire_address w s).0
after (adding w m) s = (add w m s).0
after (removing w id) s = (remove_thing w id s).0
after restart s = new_state s.persisted

abbrev pub given : Event → State → Option ℤ
given (acquire w) s = (acquire_address w s).1
given _ s = none

abbrev pub with_given : Option ℤ → List ℤ → List ℤ
with_given none l = l
with_given (some a) l = a ∷ l

-- the addresses that were returned, in order
unfoldable pub addresses : List Event → State → List ℤ
addresses [] s = []
addresses (e ∷ rest) s = with_given (given e s) (addresses rest (after e s))

-- Each address is above `low` and above all before it.
abbrev pub IsIncreasing : ℤ → List ℤ → Type 0
IsIncreasing low [] = Unit
IsIncreasing low (a ∷ rest) = (low <ℤ a) × IsIncreasing a rest

-- The file never has a larger index than the memory, and both are at least `low`.
pub record IsAbove (low : ℤ) (s : State) : Type 0 where
  pub stored : low ≤ℤ s.persisted.saved_index
  pub ahead : s.persisted.saved_index ≤ℤ s.address_index

save-IsAbove :
    (low : ℤ) (w : Saving) (s : State)
    → low ≤ℤ s.persisted.saved_index
    → s.persisted.saved_index ≤ℤ s.address_index
    → IsAbove low (save w s).0
unfolding save snapshot
save-IsAbove low saved s h k = omega arith
save-IsAbove low failed_old s h k = omega arith
save-IsAbove low failed_new s h k = omega arith

acquired :
    (low : ℤ) (w : Saving) (s : State)
    → IsAbove low s
    → ((acquire_address w s).1 ≡ none) × IsAbove low (acquire_address w s).0
      ⊎ ((a : ℤ) × ((acquire_address w s).1 ≡ some a)
          × (low <ℤ a)
          × IsAbove a (acquire_address w s).0)
unfolding acquire_address save snapshot
acquired low saved s h = inr (
  s.address_index +ℤ pos 1,
  refl,
  omega int_laws,
  record { stored = omega arith; ahead = omega arith },
)
acquired low failed_old s h = inl (refl, record { stored = h.stored; ahead = omega int_laws })
acquired low failed_new s h = inl (refl, record { stored = omega int_laws; ahead = omega arith })

kept :
    (low : ℤ) (e : Event) (s : State) → given e s ≡ none → IsAbove low s → IsAbove low (after e s)
unfolding after add remove_thing
kept low (acquire w) s n h = elim (acquired low w s h) [
  | inl a ↦ a.1
  | inr (a, g, l, k) ↦ absurd (impossible a (sym n ∙ g))
]
  where
    impossible : (a : ℤ) → none ≡ some a → ⊥
    impossible a p = cc
kept low (adding w m) s n h = save-IsAbove low w _ h.stored h.ahead
kept low (removing w id) s n h = save-IsAbove low w _ h.stored h.ahead
kept low restart s n h = unfold new_state in record { stored = h.stored; ahead = omega arith }

addresses_above :
    (low : ℤ) (events : List Event) (s : State)
    → IsAbove low s
    → IsIncreasing low (addresses events s)
unfolding addresses
addresses_above low [] s h = tt
addresses_above low (acquire w ∷ rest) s h = elim (acquired low w s h) [
  | inl a ↦
      rw (a.0, addresses) (addresses_above low rest (after (acquire w) s) (unfold after in a.1))
  | inr (a, g, l, k) ↦
      rw (g, addresses) (l, addresses_above a rest (after (acquire w) s) (unfold after in k))
]
addresses_above low (adding w m ∷ rest) s h =
    addresses_above low rest (after (adding w m) s) (kept low (adding w m) s refl h)
addresses_above low (removing w id ∷ rest) s h =
    addresses_above low rest (after (removing w id) s) (kept low (removing w id) s refl h)
addresses_above low (restart ∷ rest) s h =
    addresses_above low rest (after restart s) (kept low restart s refl h)

-- From the start of the program on any file, through any calls, failed saves and restarts, each address
-- that is returned is larger than the file's index and than every address returned before it.
pub addresses-IsIncreasing :
    (events : List Event) (file : Snapshot)
    → IsIncreasing file.saved_index (addresses events (new_state file))
addresses-IsIncreasing events file =
    addresses_above file.saved_index events (new_state file)
      (unfold new_state in record { stored = omega arith; ahead = omega arith })
