-- ===== src/Adapter/Registry/Kept.antt =====
-- adapter/adapter.go: what EnsureThings creates.
use cliffhanger.Prelude.{
  sym, ◌∙◌, ◌≢◌, eq_iff, ℕ, String, ◌≡◌, refl, ◌⊎◌, inl, inr, Bool, true, false, not, ◌&&◌, Option,
  none, some, List, [], ◌∷◌, str_eq, eq_refl, ◌==◌, Bool-cases, Option-cases, nat_eq, string_eq,
  All,
}
use cliffhanger.Prelude.Int.{ℤ, pos, ◌+ℤ◌, int_eq}
use cliffhanger.Prelude.Dict.{insert, lookup-insert}
use cliffhanger.Adapter.State.{
  ThingStateModel, State, Saving, saved, failed_old, failed_new, save, save_cell, name_error,
  thing_id_of, Outcome, returned, stuck, acquire_address, add, all_states, by_id,
  set_inclusion_checksum, inclusion_checksum_of,
}
use cliffhanger.Adapter.Registry.{
  Adapter, ThingSeed, Inclusion, Creation, Destruction, bind, on_success, send_checked, send_summed,
  send_inclusion_report, register_thing, seed_address, add_marshalled, add_model,
  create_thing_state, register_sent, make_thing, create_thing, create_things, destroy_things,
  seeds_contain, seeds_without, compare_seeds, ensure_things,
}

-- The state has a thing with the ID.
abbrev pub IsKnown : String → State → Type 0
IsKnown id s = (i : ℕ) × (by_id id s ≡ some i)

-- a predicate on the states in which a call can return
abbrev Returns : {A : Type 0} → (A → Type 0) → Outcome A → Type 0
Returns P stuck = Unit
Returns P (returned a) = P a

Returns-map :
    {A : Type 0} (P Q : A → Type 0) (o : Outcome A)
    → ((x : A) → P x → Q x)
    → Returns P o
    → Returns Q o
Returns-map P Q stuck f h = tt
Returns-map P Q (returned x) f h = f x h

-- what follows a step, with and without an error of it
on_success-Returns :
    (P : Adapter × Bool → Type 0) (o : Outcome (Adapter × Bool))
    (f : Adapter → Outcome (Adapter × Bool))
    → Returns (λ x. (x.1 ≡ true → Returns P (f x.0)) × (x.1 ≡ false → P x)) o
    → Returns P (on_success o f)
on_success-Returns P stuck f h = tt
on_success-Returns P (returned (a, true)) f (h, k) = h refl
on_success-Returns P (returned (a, false)) f (h, k) = k refl

IsKnown-alike : (id : String) (s t : State) → t.things ≡ s.things → IsKnown id s → IsKnown id t
unfolding by_id
IsKnown-alike id s t e (i, q) = (i, rw e q)

save-things : (w : Saving) (s : State) → (save w s).0.things ≡ s.things
unfolding save
save-things saved s = refl
save-things failed_old s = refl
save-things failed_new s = refl

acquire_things : (w : Saving) (s : State) → (acquire_address w s).0.things ≡ s.things
unfolding acquire_address
acquire_things w s = save-things w (record s { address_index = s.address_index +ℤ pos 1 })

add_things :
    (w : Saving) (m : ThingStateModel) (s : State)
    → (add w m s).0.things ≡ insert m.thing_id s.next_cell s.things
unfolding add
add_things w m s = save-things w _

added-IsKnown :
    (id : String) (w : Saving) (m : ThingStateModel) (s : State)
    → (str_eq m.thing_id id ≡ true) ⊎ IsKnown id s
    → IsKnown id (add w m s).0
unfolding by_id
added-IsKnown id w m s (inl e) =
    (s.next_cell, rw (add_things w m s, lookup-insert m.thing_id id s.next_cell s.things, e) refl)
added-IsKnown id w m s (inr (i, q)) = elim (Bool-cases (str_eq m.thing_id id)) [
  | inl e ↦
      (s.next_cell, rw (add_things w m s, lookup-insert m.thing_id id s.next_cell s.things, e) refl)
  | inr e ↦ (i, rw (add_things w m s, lookup-insert m.thing_id id s.next_cell s.things, e) q)
]

set_things :
    (w : Saving) (k i : ℕ) (s : State)
    → Returns (λ out. out.0.things ≡ s.things) (set_inclusion_checksum k w i s)
unfolding set_inclusion_checksum save_cell save name_error thing_id_of
set_things saved k i s = refl
set_things failed_old k i s = tt
set_things failed_new k i s = tt

summed_things :
    (force taken : Bool) (w : Saving) (k : Option ℕ) (i : ℕ) (s : State)
    → Returns (λ out. out.0.things ≡ s.things) (send_summed force k taken w i s)
unfolding send_checked
summed_things force taken w none i s = refl
summed_things force taken w (some k) i s =
    elim (Bool-cases (not force && k == inclusion_checksum_of i s)) [
      | inl e ↦ rw e refl
      | inr e ↦ elim (Bool-cases taken) [
        | inl t ↦ rw (e, t) (set_things w k i s)
        | inr t ↦ rw (e, t) refl
      ]
    ]

sent_things :
    (force : Bool) (r : Inclusion) (i : ℕ) (s : State)
    → Returns (λ out. out.0.things ≡ s.things) (send_inclusion_report force r i s)
unfolding send_inclusion_report
sent_things force r i s = summed_things force r.is_taken r.saving r.checksum i s

module _ (format : ℤ → String) where
  addressed_things :
      (w : Saving) (seed : ThingSeed) (s : State)
      → (seed_address format w seed s).0.things ≡ s.things
  unfolding seed_address
  addressed_things w seed s = elim (Bool-cases (str_eq seed.custom_address "")) [
    | inl e ↦ rw e (acquire_things w s)
    | inr e ↦ rw e refl
  ]

  marshalled-IsKnown :
      (id seed : String) (w : Saving) (address : String) (o : Option String) (s : State)
      → IsKnown id s
      → IsKnown id (add_marshalled format w seed address o s).0
  marshalled-IsKnown id seed w address none s h = h
  marshalled-IsKnown id seed w address (some text) s h = added-IsKnown id w _ s (inr h)

  model-IsKnown :
      (id : String) (c : Creation) (seed : String) (o : Option String) (s : State)
      → IsKnown id s
      → IsKnown id (add_model format c seed o s).0
  model-IsKnown id c seed none s h = h
  model-IsKnown id c seed (some a) s h = marshalled-IsKnown id seed c.adding a c.info s h

  state-IsKnown :
      (id : String) (c : Creation) (seed : ThingSeed) (s : State)
      → IsKnown id s
      → IsKnown id (create_thing_state format c seed s).0
  unfolding create_thing_state
  state-IsKnown id c seed s h =
      let (s', address) = seed_address format c.index_saving seed s in
      model-IsKnown id c seed.seed_id address s'
        (IsKnown-alike id s s' (addressed_things c.index_saving seed s) h)

  new_marshalled :
      (id : String) (w : Saving) (address : String) (o : Option String) (s : State) (i : ℕ)
      → (add_marshalled format w id address o s).1 ≡ some i
      → IsKnown id (add_marshalled format w id address o s).0
  new_marshalled id w address none s i q = absurd cc
  new_marshalled id w address (some text) s i q = added-IsKnown id w _ s (inl (eq_refl id))

  new_model :
      (c : Creation) (id : String) (o : Option String) (s : State) (i : ℕ)
      → (add_model format c id o s).1 ≡ some i
      → IsKnown id (add_model format c id o s).0
  new_model c id none s i q = absurd cc
  new_model c id (some a) s i q = new_marshalled id c.adding a c.info s i q

  new-IsKnown :
      (c : Creation) (seed : ThingSeed) (s : State) (i : ℕ)
      → (create_thing_state format c seed s).1 ≡ some i
      → IsKnown seed.seed_id (create_thing_state format c seed s).0
  unfolding create_thing_state
  new-IsKnown c seed s i q =
      let (s', address) = seed_address format c.index_saving seed s in
      new_model c seed.seed_id address s' i q

  -- what is known after the rest of `createThing`
  made_things :
      (o : Option String) (r : Inclusion) (i : ℕ) (s : State) (a : Adapter)
      → Returns (λ out. out.0.state.things ≡ s.things) (make_thing format o r i s a)
  unfolding register_thing
  made_things none r i s a = refl
  made_things (some address) r i s a =
      registered (send_inclusion_report true r i s) (sent_things true r i s)
    where
      registered :
          (out : Outcome (State × Bool))
          → Returns (λ x. x.0.things ≡ s.things) out
          → Returns
              (λ x. x.0.state.things ≡ s.things)
              (bind out (register_sent format (record { thing_address = address; proxy = i }) a))
      registered stuck h = tt
      registered (returned (s', true)) h = h
      registered (returned (s', false)) h = h

  create_thing-IsKnown :
      (id : String) (c : Creation) (seed : ThingSeed) (a : Adapter)
      → IsKnown id a.state
      → Returns (λ x. IsKnown id x.0.state) (create_thing format c seed a)
  unfolding create_thing
  create_thing-IsKnown id c seed a h =
      let s = (create_thing_state format c seed a.state).0 in
      let k = state-IsKnown id c seed a.state h in
      elim (Option-cases (create_thing_state format c seed a.state).1) [
        | inl q ↦ rw q k
        | inr (i, q) ↦ rw q (
            Returns-map _ _ (make_thing format c.made c.inclusion i s a)
              (λ x e. IsKnown-alike id s x.0.state e k) (made_things c.made c.inclusion i s a))
      ]

  create_thing_new :
      (c : Creation) (seed : ThingSeed) (a : Adapter)
      → Returns (λ x. x.1 ≡ true → IsKnown seed.seed_id x.0.state) (create_thing format c seed a)
  unfolding create_thing
  create_thing_new c seed a =
      let s = (create_thing_state format c seed a.state).0 in
      elim (Option-cases (create_thing_state format c seed a.state).1) [
        | inl q ↦ rw q (λ e. absurd cc)
        | inr (i, q) ↦ rw q (
            Returns-map _ _ (make_thing format c.made c.inclusion i s a)
              (λ x e t. IsKnown-alike seed.seed_id s x.0.state e (new-IsKnown c seed a.state i q))
              (made_things c.made c.inclusion i s a))
      ]

  create_things-IsKnown :
      (creations : String → Creation) (id : String) (seeds : List ThingSeed) (a : Adapter)
      → IsKnown id a.state
      → Returns (λ x. IsKnown id x.0.state) (create_things format creations seeds a)
  unfolding create_things
  create_things-IsKnown creations id [] a h = h
  create_things-IsKnown creations id (seed ∷ seeds) a h =
      on_success-Returns _ (create_thing format (creations seed.seed_id) seed a)
        (create_things format creations seeds)
        (Returns-map _ _ (create_thing format (creations seed.seed_id) seed a)
          (λ x k. (λ t. create_things-IsKnown creations id seeds x.0 k, λ t. k))
          (create_thing-IsKnown id (creations seed.seed_id) seed a h))

  -- every seed of the list is known when the call has no error
  abbrev pub KnowsAll : List ThingSeed → Adapter × Bool → Type 0
  KnowsAll seeds x = x.1 ≡ true → All (λ seed. IsKnown seed.seed_id x.0.state) seeds

  all_created :
      (creations : String → Creation) (seeds : List ThingSeed) (a : Adapter)
      → Returns (KnowsAll seeds) (create_things format creations seeds a)
  unfolding create_things
  all_created creations [] a = λ t. tt
  all_created creations (seed ∷ seeds) a =
      on_success-Returns (KnowsAll (seed ∷ seeds))
        (create_thing format (creations seed.seed_id) seed a) (create_things format creations seeds)
        (Returns-map _ _ (create_thing format (creations seed.seed_id) seed a)
          (λ x new. (
            λ t.
                both (create_things format creations seeds x.0)
                  (create_things-IsKnown creations seed.seed_id seeds x.0 (new t))
                  (all_created creations seeds x.0),
            λ f t. absurd cc,
          ))
          (create_thing_new (creations seed.seed_id) seed a))
    where
      both :
          (o : Outcome (Adapter × Bool))
          → Returns (λ x. IsKnown seed.seed_id x.0.state) o
          → Returns (KnowsAll seeds) o
          → Returns (KnowsAll (seed ∷ seeds)) o
      both stuck h k = tt
      both (returned x) h k = λ t. (h, k t)

created_lem :
    (format : ℤ → String) (creations : String → Creation) (destructions : String → Destruction)
    (seeds : List ThingSeed) (a a' : Adapter)
    → ensure_things format creations destructions seeds a ≡ returned (a', true)
    → All
        (λ seed. IsKnown seed.seed_id a'.state)
        (compare_seeds (all_states a.state.things) a.state seeds).1
unfolding ensure_things
created_lem format creations destructions seeds a a' q =
    let (gone, left) = compare_seeds (all_states a.state.things) a.state seeds in
    let (a1, done) = destroy_things destructions gone a in
    elim (Bool-cases done) [
      | inr e ↦ absurd (cc (rw e at q))
      | inl e ↦
          (let made : create_things format creations left a1 ≡ returned (a', true) = rw e at q in
            let known : KnowsAll format left (a', true) =
              rw made at (all_created format creations left a1) in
            known refl)
    ]

-- One of the seeds has the ID.
abbrev pub HasSeed : String → List ThingSeed → Type 0
HasSeed id [] = ⊥
HasSeed id (seed ∷ seeds) = (seed.seed_id ≡ id) ⊎ HasSeed id seeds

without-HasSeed :
    (id k : String) (seeds : List ThingSeed)
    → k ≢ id
    → HasSeed id seeds
    → HasSeed id (seeds_without seeds k)
unfolding seeds_without
without-HasSeed id k [] n h = h
without-HasSeed id k (seed ∷ seeds) n h = elim (Bool-cases (str_eq seed.seed_id k)) [
  | inr e ↦ rw e (elim h [ inl q ↦ inl q | inr h' ↦ inr (without-HasSeed id k seeds n h') ])
  | inl e ↦ rw e (elim h [
    | inl q ↦ absurd (n (sym ((eq_iff seed.seed_id k).0 e) ∙ q))
    | inr h' ↦ without-HasSeed id k seeds n h'
  ])
]

compare_seeds-HasSeed :
    (id : String) (proxies : List ℕ) (s : State) (seeds : List ThingSeed)
    → All (λ i. (s.cells i).thing_id ≢ id) proxies
    → HasSeed id seeds
    → HasSeed id (compare_seeds proxies s seeds).1
unfolding compare_seeds
compare_seeds-HasSeed id [] s seeds a h = h
compare_seeds-HasSeed id (i ∷ proxies) s seeds (n, a) h =
    elim (Bool-cases (seeds_contain seeds (s.cells i).thing_id)) [
      | inl e ↦ rw e (
          compare_seeds-HasSeed id proxies s (seeds_without seeds (s.cells i).thing_id) a
            (without-HasSeed id (s.cells i).thing_id seeds n h))
      | inr e ↦ rw e (compare_seeds-HasSeed id proxies s seeds a h)
    ]

IsKnown-seed :
    (id : String) (s : State) (seeds : List ThingSeed)
    → All (λ seed. IsKnown seed.seed_id s) seeds
    → HasSeed id seeds
    → IsKnown id s
IsKnown-seed id s [] a h = absurd h
IsKnown-seed id s (seed ∷ seeds) (k, a) (inl q) = rw q at k
IsKnown-seed id s (seed ∷ seeds) (k, a) (inr h) = IsKnown-seed id s seeds a h

-- When `EnsureThings` returns without an error, the state has a thing for the ID of every one of its seeds
-- that no thing of the state had before.
pub ensure_things-KnowsAll :
    (format : ℤ → String) (creations : String → Creation) (destructions : String → Destruction)
    (seeds : List ThingSeed) (a a' : Adapter) (id : String)
    → ensure_things format creations destructions seeds a ≡ returned (a', true)
    → HasSeed id seeds
    → All (λ i. (a.state.cells i).thing_id ≢ id) (all_states a.state.things)
    → IsKnown id a'.state
ensure_things-KnowsAll format creations destructions seeds a a' id q h n =
    IsKnown-seed id a'.state (compare_seeds (all_states a.state.things) a.state seeds).1
      (created_lem format creations destructions seeds a a' q)
      (compare_seeds-HasSeed id (all_states a.state.things) a.state seeds n h)
