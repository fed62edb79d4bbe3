-- ===== src/Adapter/State/Things.antt =====
-- What the maps of adapter/state.go return after additions and removals.
use cliffhanger.Prelude.{
  ℕ, ◌+◌, String, ◌≡◌, refl, sym, ap, ◌∙◌, ◌≢◌, inl, inr, true, none, some, [], ◌∷◌, arith, str_eq,
  if◌then◌else◌, Option-cases, nat_eq, string_eq,
}
use cliffhanger.Prelude.Int.{int_eq}
use cliffhanger.Prelude.Dict.{Dict, lookup, insert, remove, lookup-insert, lookup-remove}
use cliffhanger.Adapter.State.{
  ThingStateModel, State, Saving, returned, saved, failed_old, failed_new, save, snapshot, add,
  remove_thing, by_id, set_state, update, entries,
}

save_cases :
    (w : Saving) (s : State) → ((save w s).0.things ≡ s.things) × ((save w s).0.cells ≡ s.cells)
unfolding save
save_cases saved s = (refl, refl)
save_cases failed_old s = (refl, refl)
save_cases failed_new s = (refl, refl)

-- Adding a thing makes its ID name a new entry that holds the model, and leaves the other IDs alone,
-- also where the save fails: the thing stays in memory although an error is returned.
pub by_id-add :
    (w : Saving) (m : ThingStateModel) (id : String) (s : State)
    → let s' = (add w m s).0 in
      (by_id id s' ≡ (if str_eq m.thing_id id then some s.next_cell else by_id id s))
      × (s'.cells s.next_cell ≡ m)
unfolding by_id add
by_id-add w m id s =
    let made : State = record s {
      things = insert m.thing_id s.next_cell s.things;
      cells = update s.cells s.next_cell m;
      next_cell = s.next_cell + 1;
    } in
    let (t, c) = save_cases w made in
    (rw t (lookup-insert m.thing_id id s.next_cell s.things), rw c (here s.next_cell))
  where
    here : (n : ℕ) → update s.cells n m n ≡ m
    here n = ground arith

-- Removing a thing takes its ID away and no other, also where the save fails.
pub by_id-remove_thing :
    (w : Saving) (k id : String) (s : State)
    → by_id id (remove_thing w k s).0 ≡ (if str_eq k id then none else by_id id s)
unfolding by_id remove_thing
by_id-remove_thing w k id s =
    rw (save_cases w (record s { things = remove k s.things })).0 (lookup-remove k id s.things)

lookup-entries :
    (id : String) (things : Dict ℕ) (cells : ℕ → ThingStateModel)
    → lookup id (entries things cells)
      ≡ elim (lookup id things) [ none ↦ none | some i ↦ some (cells i) ]
unfolding lookup entries
lookup-entries id [] cells = refl
lookup-entries id ((k, i) ∷ rest) cells = ground (arith, lookup-entries id rest cells)

-- A proxy that is still in the map stores its state: after a save without an error the file has the
-- new text under the thing's ID, and the file has every other thing as the memory has it.
pub set_state-persisted :
    (text id : String) (i : ℕ) (s : State)
    → lookup id s.things ≡ some i
    → (s' : State) × (set_state (some text) saved i s ≡ returned (s', true))
      × (lookup id s'.persisted.saved_things ≡ some (record (s.cells i) { state = text }))
      × ((j : String) (k : ℕ)
          → lookup j s.things ≡ some k
          → k ≢ i
          → lookup j s'.persisted.saved_things ≡ some (s.cells k))
unfolding set_state save snapshot
set_state-persisted text id i s h =
    let cells = update s.cells i (record (s.cells i) { state = text }) in
    let changed : State = record s { cells = cells } in
    (
      record changed { persisted = snapshot changed },
      refl,
      lookup-entries id s.things cells ∙ rw h (ap some (here i)),
      λ j k l n. lookup-entries j s.things cells ∙ rw l (ap some (there k n)),
    )
  where
    here :
        (n : ℕ)
        → update s.cells n (record (s.cells n) { state = text }) n
          ≡ record (s.cells n) { state = text }
    here n = ground arith

    there : (k : ℕ) → k ≢ i → update s.cells i (record (s.cells i) { state = text }) k ≡ s.cells k
    there k n = ground arith

set_state-unchanged :
    (text : String) (i : ℕ) (s : State)
    → ((j : String) (k : ℕ) → lookup j s.things ≡ some k → k ≢ i)
    → (s' : State) × (set_state (some text) saved i s ≡ returned (s', true))
      × ((j : String) → lookup j s'.persisted.saved_things ≡ lookup j (snapshot s).saved_things)
unfolding set_state save snapshot
set_state-unchanged text i s gone =
    let cells = update s.cells i (record (s.cells i) { state = text }) in
    let changed : State = record s { cells = cells } in
    (
      record changed { persisted = snapshot changed },
      refl,
      λ j. lookup-entries j s.things cells ∙ same j ∙ sym (lookup-entries j s.things s.cells),
    )
  where
    there : (k : ℕ) → k ≢ i → update s.cells i (record (s.cells i) { state = text }) k ≡ s.cells k
    there k n = ground arith

    same :
        (j : String)
        → elim (lookup j s.things) [
          | none ↦ none
          | some k ↦ some (update s.cells i (record (s.cells i) { state = text }) k)
        ]
          ≡ elim (lookup j s.things) [ none ↦ none | some k ↦ some (s.cells k) ]
    same j = elim (Option-cases (lookup j s.things)) [
      | inl e ↦ rw e
      | inr (k, e) ↦ rw e (ap some (there k (gone j k e)))
    ]

-- A proxy whose thing has been removed or replaced is not in the map any more: when the file has what the
-- memory has, and its save succeeds, its `SetState` returns no error, and yet every thing of the file is
-- what it was before the call.
pub set_state-stale :
    (text : String) (i : ℕ) (s : State)
    → s.persisted ≡ snapshot s
    → ((j : String) (k : ℕ) → lookup j s.things ≡ some k → k ≢ i)
    → (s' : State) × (set_state (some text) saved i s ≡ returned (s', true))
      × ((j : String) → lookup j s'.persisted.saved_things ≡ lookup j s.persisted.saved_things)
set_state-stale text i s kept gone =
    let (s', done, same) = set_state-unchanged text i s gone in
    (s', done, λ j. same j ∙ ap (λ p. lookup j p.saved_things) (sym kept))
