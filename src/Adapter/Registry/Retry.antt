-- ===== src/Adapter/Registry/Retry.antt =====
-- adapter/adapter.go: a thing whose creation fails after its state is stored.
use cliffhanger.Prelude.{
  String, ◌≡◌, refl, inl, inr, true, false, none, some, [], ◌∷◌, str_eq, eq_refl, ==_iff,
  Bool-cases, nat_eq, string_eq,
}
use cliffhanger.Prelude.Int.{ℤ, pos, ◌+ℤ◌, int_eq}
use cliffhanger.Prelude.Dict.{lookup, insert}
use cliffhanger.Adapter.State.{
  ThingStateModel, State, saved, save, returned, acquire_address, add, all_states, by_id,
}
use cliffhanger.Adapter.Registry.{
  Adapter, ThingSeed, Creation, Destruction, with_state, seeds_contain, seeds_without, seed_address,
  create_thing_state, create_thing, create_things, destroy_things, compare_seeds, ensure_things,
  thing_by_id,
}

-- an adapter without things
abbrev pub bare : State → Adapter
bare s = record { state = record s { things = [] }; registered = []; initialized = true }

abbrev stored : String → String → ThingSeed → State → Adapter
stored address text seed s =
    (let m : ThingStateModel = record {
      thing_id = seed.seed_id;
      address = address;
      info = text;
      state = "";
      inclusion_checksum = 0;
    } in
      with_state (bare s) (add saved m (record s { things = [] })).0)

ensure-stored :
    (format : ℤ → String) (creations : String → Creation) (destructions : String → Destruction)
    (address text : String) (seed : ThingSeed) (s : State)
    → (ensure_things format creations destructions (seed ∷ []) (stored address text seed s)
        ≡ returned (stored address text seed s, true))
      × (thing_by_id seed.seed_id (stored address text seed s) ≡ none)
unfolding add save ensure_things compare_seeds seeds_contain seeds_without all_states destroy_things
    create_things thing_by_id by_id lookup insert
ensure-stored format creations destructions address text seed s =
    let same = (==_iff s.next_cell s.next_cell).1 refl in
    (rw (same, eq_refl seed.seed_id) refl, rw (eq_refl seed.seed_id) refl)

-- In an adapter without things whose saves succeed, when the factory fails to make the thing of a seed, its
-- state is stored all the same: a call of `EnsureThings` with just that seed, as the next one, then takes
-- the thing for an existing one and returns no error, without making it, and the adapter has no such thing.
pub ensure_things-unmade :
    (format : ℤ → String) (creations : String → Creation) (destructions : String → Destruction)
    (c : Creation) (text : String) (seed : ThingSeed) (s : State)
    → c.index_saving ≡ saved
    → c.info ≡ some text
    → c.adding ≡ saved
    → c.made ≡ none
    → (a : Adapter) × (create_thing format c seed (bare s) ≡ returned (a, false))
      × (ensure_things format creations destructions (seed ∷ []) a ≡ returned (a, true))
      × (thing_by_id seed.seed_id a ≡ none)
unfolding create_thing create_thing_state seed_address acquire_address add save
ensure_things-unmade format creations destructions c text seed s p q r m =
    let index = s.address_index +ℤ pos 1 in
    let numbered = record s { things = []; address_index = index } in
    elim (Bool-cases (str_eq seed.custom_address "")) [
      | inl e ↦
          (let (again, gone) =
              ensure-stored format creations destructions (format index) text seed
                ((save saved numbered).0) in
            (
              stored (format index) text seed ((save saved numbered).0),
              rw (p, e, q, r, m) refl,
              again,
              gone,
            ))
      | inr e ↦
          (let (again, gone) =
              ensure-stored format creations destructions seed.custom_address text seed s in
            (stored seed.custom_address text seed s, rw (p, e, q, r, m) refl, again, gone))
    ]
