-- ===== src/Adapter/Registry/Examples.antt =====
-- adapter/adapter.go: concrete runs.
use cliffhanger.Prelude.{
  inl, String, ◌≡◌, refl, Bool, true, false, none, some, [], ◌∷◌, nat_eq, string_eq,
}
use cliffhanger.Prelude.Int.{ℤ, pos, int_eq}
use cliffhanger.Prelude.Dict.{lookup, insert}
use cliffhanger.Adapter.State.{
  State, saved, save, Outcome, returned, stuck, all_states, by_id, new_state,
}
use cliffhanger.Adapter.Registry.{
  Adapter, ThingSeed, Creation, Destruction, create_thing, ensure_things, thing_by_id,
}
use cliffhanger.Adapter.Registry.Retry.{bare, ensure_things-unmade}
use cliffhanger.Adapter.Registry.Kept.{IsKnown, ensure_things-KnowsAll}

abbrev format : ℤ → String
format n = "7"

abbrev works : Creation
works = record {
  index_saving = saved;
  info = some "{}";
  adding = saved;
  made = some "7";
  inclusion = record { checksum = some 5; is_taken = true; saving = saved };
}

abbrev fails : Creation
fails = record works { made = none }

abbrev lamp : ThingSeed
lamp = record { seed_id = "lamp"; custom_address = "" }

abbrev destructions : String → Destruction
destructions a = record { removing = saved; is_excluded = true }

abbrev creations : String → Creation
creations id = works

abbrev empty_state : State
empty_state = new_state (record { saved_index = pos 6; saved_things = [] })

ensure_things-unmade_example :
    (a : Adapter) × (create_thing format fails lamp (bare empty_state) ≡ returned (a, false))
    × (ensure_things format creations destructions (lamp ∷ []) a ≡ returned (a, true))
    × (thing_by_id "lamp" a ≡ none)
ensure_things-unmade_example =
    ensure_things-unmade format creations destructions fails "{}" lamp empty_state refl refl refl
      refl

abbrev adapter_of : Outcome (Adapter × Bool) → Adapter
adapter_of stuck = bare empty_state
adapter_of (returned (a, b)) = a

lit : Adapter
unfolding ensure_things
lit = adapter_of (ensure_things format creations destructions (lamp ∷ []) (bare empty_state))

ensure_things-KnowsAll_example : IsKnown "lamp" lit.state
unfolding lit ensure_things save all_states
ensure_things-KnowsAll_example =
    ensure_things-KnowsAll format creations destructions (lamp ∷ []) (bare empty_state) lit "lamp"
      refl (inl refl) tt

made_test : thing_by_id "lamp" lit ≡ some (record { thing_address = "7"; proxy = 0 })
unfolding thing_by_id lit ensure_things by_id lookup insert save new_state
made_test = refl

-- without its seed the thing goes
gone_test :
    thing_by_id "lamp" (adapter_of (ensure_things format creations destructions [] lit)) ≡ none
unfolding thing_by_id lit ensure_things by_id lookup insert save new_state
gone_test = refl
