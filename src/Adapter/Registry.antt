-- ===== src/Adapter/Registry.antt =====
-- adapter/adapter.go, and the inclusion report of adapter/thing.go: the registration of things over the
-- state. Each method of the adapter holds its lock and is one step. What the factory makes, whether the
-- transport takes a message, whether values are marshalled and how a save ends are arguments, given for
-- the thing they are about; connecting and disconnecting a thing changes nothing here. A place of the
-- state stands for a proxy, as in State, and a call that never returns is `stuck`.
mod Retry
mod Kept
mod Examples
use cliffhanger.Prelude.{
  ℕ, String, Bool, true, false, not, ◌&&◌, Option, none, some, List, [], ◌∷◌, str_eq, ◌==◌,
  if◌then◌else◌,
}
use cliffhanger.Prelude.Int.{ℤ}
use cliffhanger.Prelude.Dict.{Dict, lookup, insert, remove}
use cliffhanger.Adapter.State.{
  State, Saving, Outcome, returned, stuck, acquire_address, add, remove_thing, all_states, by_id,
  by_address, set_inclusion_checksum, inclusion_checksum_of,
}

-- a registered thing: its address and its proxy
pub record Thing : Type 0 where
  pub thing_address : String
  pub proxy : ℕ

pub record Adapter : Type 0 where
  pub state : State
  pub registered : Dict Thing
  pub initialized : Bool

-- `ThingSeed`, without the type of its information
pub record ThingSeed : Type 0 where
  pub seed_id : String
  pub custom_address : String

-- the inclusion report: its checksum, none if it cannot be marshalled; the transport; the save
pub record Inclusion : Type 0 where
  pub checksum : Option ℕ
  pub is_taken : Bool
  pub saving : Saving

-- the creation of a thing: the save of the address, the information as it is marshalled, the save of the
-- state, the address of what the factory makes and its inclusion report
pub record Creation : Type 0 where
  pub index_saving : Saving
  pub info : Option String
  pub adding : Saving
  pub made : Option String
  pub inclusion : Inclusion

-- the end of a thing: the save, and the transport of the exclusion report
pub record Destruction : Type 0 where
  pub removing : Saving
  pub is_excluded : Bool

abbrev pub bind : {A B : Type 0} → Outcome A → (A → Outcome B) → Outcome B
bind stuck f = stuck
bind (returned a) f = f a

-- what follows a step without an error
abbrev pub on_success :
    {A : Type 0} → Outcome (A × Bool) → (A → Outcome (A × Bool)) → Outcome (A × Bool)
on_success stuck f = stuck
on_success (returned (a, true)) f = f a
on_success (returned (a, false)) f = returned (a, false)

abbrev pub with_state : Adapter → State → Adapter
with_state a s = record a { state = s }

-- `Contains`
unfoldable pub seeds_contain : List ThingSeed → String → Bool
seeds_contain [] id = false
seeds_contain (seed ∷ seeds) id = if str_eq seed.seed_id id then true else seeds_contain seeds id

-- `Without`
unfoldable pub seeds_without : List ThingSeed → String → List ThingSeed
seeds_without [] id = []
seeds_without (seed ∷ seeds) id =
    let rest = seeds_without seeds id in if str_eq seed.seed_id id then rest else seed ∷ rest

-- the part of `SendInclusionReport` that has a checksum
unfoldable pub send_checked : Bool → ℕ → Bool → Saving → ℕ → State → Outcome (State × Bool)
unfolding set_inclusion_checksum inclusion_checksum_of
send_checked force checksum is_taken saving i s =
    if not force && checksum == inclusion_checksum_of i s
    then returned (s, true)
    else if is_taken
    then set_inclusion_checksum checksum saving i s
    else returned (s, false)

abbrev pub send_summed : Bool → Option ℕ → Bool → Saving → ℕ → State → Outcome (State × Bool)
send_summed force none is_taken saving i s = returned (s, false)
send_summed force (some c) is_taken saving i s = send_checked force c is_taken saving i s

-- `SendInclusionReport`, and whether there is no error
unfoldable pub send_inclusion_report : Bool → Inclusion → ℕ → State → Outcome (State × Bool)
unfolding send_checked
send_inclusion_report force r i s = send_summed force r.checksum r.is_taken r.saving i s

-- `registerThing`
unfoldable pub register_thing : Thing → Adapter → Adapter
unfolding insert
register_thing t a = record a { registered = insert t.thing_address t a.registered }

-- `unregisterThing`
unfoldable pub unregister_thing : Thing → Adapter → Adapter
unfolding remove
unregister_thing t a = record a { registered = remove t.thing_address a.registered }

module _ (format : ℤ → String) where
  -- the address that `createThingState` takes; none is the error of a save
  unfoldable pub seed_address : Saving → ThingSeed → State → State × Option String
  unfolding acquire_address
  seed_address w seed s =
      let (s', index) = acquire_address w s in
      if str_eq seed.custom_address ""
      then (s', elim index [ none ↦ none | some n ↦ some (format n) ])
      else (s, some seed.custom_address)

  abbrev pub add_marshalled : Saving → String → String → Option String → State → State × Option ℕ
  add_marshalled w id address none s = (s, none)
  add_marshalled w id address (some text) s =
      add w
        (record {
          thing_id = id;
          address = address;
          info = text;
          state = "";
          inclusion_checksum = 0;
        })
        s

  abbrev pub add_model : Creation → String → Option String → State → State × Option ℕ
  add_model c id none s = (s, none)
  add_model c id (some address) s = add_marshalled c.adding id address c.info s

  -- `createThingState`
  unfoldable pub create_thing_state : Creation → ThingSeed → State → State × Option ℕ
  unfolding seed_address add
  create_thing_state c seed s =
      let (s', address) = seed_address c.index_saving seed s in add_model c seed.seed_id address s'

  -- the thing that the factory made, after its inclusion report
  abbrev pub register_sent : Thing → Adapter → State × Bool → Outcome (Adapter × Bool)
  register_sent t a (s, false) = returned (with_state a s, false)
  register_sent t a (s, true) = returned (register_thing t (with_state a s), true)

  -- what the factory makes of a proxy
  abbrev pub make_thing : Option String → Inclusion → ℕ → State → Adapter → Outcome (Adapter × Bool)
  make_thing none r i s a = returned (with_state a s, false)
  make_thing (some address) r i s a =
      bind (send_inclusion_report true r i s)
        (register_sent (record { thing_address = address; proxy = i }) a)

  abbrev pub make_created : Creation → State → Option ℕ → Adapter → Outcome (Adapter × Bool)
  make_created c s none a = returned (with_state a s, false)
  make_created c s (some i) a = make_thing c.made c.inclusion i s a

  -- `createThing`
  unfoldable pub create_thing : Creation → ThingSeed → Adapter → Outcome (Adapter × Bool)
  unfolding create_thing_state send_inclusion_report register_thing
  create_thing c seed a =
      let (s, proxy) = create_thing_state c seed a.state in make_created c s proxy a

  -- the last loop of `EnsureThings`
  unfoldable pub create_things :
      (String → Creation) → List ThingSeed → Adapter → Outcome (Adapter × Bool)
  unfolding create_thing
  create_things creations [] a = returned (a, true)
  create_things creations (seed ∷ seeds) a =
      on_success (create_thing (creations seed.seed_id) seed a) (create_things creations seeds)

-- the part of `destroyThing` after the state: the thing that is registered, and the report
abbrev pub leave : Destruction → Option Thing → Adapter → Adapter × Bool
leave d none a = (a, d.is_excluded)
leave d (some t) a = (unregister_thing t a, d.is_excluded)

abbrev pub forget : Destruction → Option ℕ → Adapter → Adapter × Bool
forget d none a = (a, true)
forget d (some i) a =
    (let (s, done) = remove_thing d.removing (a.state.cells i).thing_id a.state in
      (with_state a s, done))

-- `destroyThing`
unfoldable pub destroy_thing : Destruction → String → Adapter → Adapter × Bool
unfolding by_address remove_thing lookup unregister_thing
destroy_thing d address a =
    let (a', done) = forget d (by_address address a.state) a in
    if done then leave d (lookup address a'.registered) a' else (a', false)

-- the second loop of `EnsureThings`
unfoldable pub destroy_things : (String → Destruction) → List String → Adapter → Adapter × Bool
unfolding destroy_thing
destroy_things destructions [] a = (a, true)
destroy_things destructions (address ∷ addresses) a =
    let (a', done) = destroy_thing (destructions address) address a in
    let rest = destroy_things destructions addresses a' in if done then rest else (a', false)

-- the first loop of `EnsureThings`: the addresses that go, and the seeds that are left
unfoldable pub compare_seeds : List ℕ → State → List ThingSeed → List String × List ThingSeed
unfolding seeds_contain seeds_without
compare_seeds [] s seeds = ([], seeds)
compare_seeds (i ∷ proxies) s seeds =
    let (gone, left) = compare_seeds proxies s seeds in
    let kept = compare_seeds proxies s (seeds_without seeds (s.cells i).thing_id) in
    if seeds_contain seeds (s.cells i).thing_id then kept else ((s.cells i).address ∷ gone, left)

-- `EnsureThings`
unfoldable pub ensure_things :
    (ℤ → String)
    → (String → Creation)
    → (String → Destruction)
    → List ThingSeed
    → Adapter
    → Outcome (Adapter × Bool)
unfolding all_states compare_seeds destroy_things create_things
ensure_things format creations destructions seeds a =
    let (gone, left) = compare_seeds (all_states a.state.things) a.state seeds in
    let (a', done) = destroy_things destructions gone a in
    if done then create_things format creations left a' else returned (a', false)

abbrev pub destroy_found : Destruction → Option ℕ → Adapter → Adapter × Bool
destroy_found d none a = (a, true)
destroy_found d (some i) a = destroy_thing d (a.state.cells i).address a

-- `DestroyThingByID`
unfoldable pub destroy_thing_by_id : Destruction → String → Adapter → Adapter × Bool
unfolding by_id destroy_thing
destroy_thing_by_id d id a = destroy_found d (by_id id a.state) a

abbrev pub thing_of : Option ℕ → Adapter → Option Thing
thing_of none a = none
thing_of (some i) a = lookup (a.state.cells i).address a.registered

-- `ThingByID`; none is nil
unfoldable pub thing_by_id : String → Adapter → Option Thing
unfolding by_id lookup
thing_by_id id a = thing_of (by_id id a.state) a

-- the loop of `DestroyAllThings`, over the proxies that there were
unfoldable pub destroy_proxies : (String → Destruction) → List ℕ → Adapter → Adapter × Bool
unfolding destroy_thing
destroy_proxies destructions [] a = (a, true)
destroy_proxies destructions (i ∷ proxies) a =
    let address = (a.state.cells i).address in
    let (a', done) = destroy_thing (destructions address) address a in
    let rest = destroy_proxies destructions proxies a' in if done then rest else (a', false)

-- `DestroyAllThings`
unfoldable pub destroy_all_things : (String → Destruction) → Adapter → Adapter × Bool
unfolding all_states destroy_proxies
destroy_all_things destructions a =
    let (a', done) = destroy_proxies destructions (all_states a.state.things) a in
    if done then (record a' { registered = [] }, true) else (a', false)

abbrev pub put_first : Thing → State × Option (List Thing) → Outcome (State × Option (List Thing))
put_first t (s, none) = returned (s, none)
put_first t (s, some ts) = returned (s, some (t ∷ ts))

-- what follows an inclusion report in the loop
abbrev pub go_on :
    State × Bool
    → (State → Outcome (State × Option (List Thing)))
    → Outcome (State × Option (List Thing))
go_on (s, false) f = returned (s, none)
go_on (s, true) f = f s

-- the loop of `InitializeThings`: what is made, or the error
unfoldable pub make_all :
    (ℕ → Option String) → (ℕ → Inclusion) → List ℕ → State → Outcome (State × Option (List Thing))
unfolding send_inclusion_report
make_all made inclusions [] s = returned (s, some [])
make_all made inclusions (i ∷ proxies) s = elim (made i) [
  | none ↦ returned (s, none)
  | some address ↦ bind (send_inclusion_report false (inclusions i) i s) λ sending.
      go_on sending λ s'.
        bind (make_all made inclusions proxies s')
          (put_first (record { thing_address = address; proxy = i }))
]

unfoldable pub register_all : List Thing → Adapter → Adapter
unfolding register_thing
register_all [] a = a
register_all (t ∷ ts) a = register_all ts (register_thing t a)

abbrev pub initialized_with : Adapter → State × Option (List Thing) → Outcome (Adapter × Bool)
initialized_with a (s, none) = returned (with_state a s, false)
initialized_with a (s, some ts) =
    returned (record (register_all ts (with_state a s)) { initialized = true }, true)

-- `InitializeThings`
unfoldable pub initialize_things :
    (ℕ → Option String) → (ℕ → Inclusion) → Adapter → Outcome (Adapter × Bool)
unfolding all_states make_all register_all
initialize_things made inclusions a =
    if a.initialized
    then returned (a, true)
    else bind (make_all made inclusions (all_states a.state.things) a.state) (initialized_with a)
