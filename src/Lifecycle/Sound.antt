-- ===== src/Lifecycle/Sound.antt =====
-- No sequence of calls of lifecycle/lifecycle.go panics: the bus holds open channels only, each once.
use cliffhanger.Prelude.{
  All, ℕ, ◌+◌, ◌≤◌, ◌<◌, String, ◌≡◌, refl, sym, ◌≢◌, inl, inr, Bool, true, false, Option, none,
  some, List, [], ◌∷◌, arith, str_eq, ◌==◌, if◌then◌else◌, ==_iff, Bool-cases, Option-cases, nat_eq,
  string_eq, length, length-append,
}
use cliffhanger.Prelude.Int.{ℤ, pos, negsuc, ◌≤ℤ◌, int_eq, Time}
use cliffhanger.Prelude.Dict.{Dict, lookup, insert, remove}
use mathlib.Core.Path.{subst}
use cliffhanger.Lifecycle.{
  SystemEvent, Channel, Lifecycle, make_channel, new, update, emit_state_change_event,
  set_config_state, set_auth_state, set_conn_state, set_app_health, subscribe, subscribe_sized,
  unsubscribe, rest_of, tail_of, receive, Field, health, config, auth, conn, set_field, Op, set_op,
  subscribe_op, unsubscribe_op, receive_op, step, run, state_type_app_health,
  state_type_config_state, state_type_auth_state, state_type_conn_state,
}
use cliffhanger.Lifecycle.Bus.{
  AllPlaces, IsOpen, IsDistinct, deliver, on_bus, emit_all_lem, update-IsOpen,
}

pub record IsSound (l : Lifecycle) : Type 0 where
  pub opened : AllPlaces (IsOpen l.channels) l.system_event_bus
  pub distinct : IsDistinct l.system_event_bus
  pub allocated : AllPlaces (λ i. i < l.next_channel) l.system_event_bus
  pub bounded : (i : ℕ) → length (l.channels i).buffer ≤ (l.channels i).cap

AllPlaces-map :
    {P Q : ℕ → Type 0} (bus : Dict ℕ) → ((i : ℕ) → P i → Q i) → AllPlaces P bus → AllPlaces Q bus
AllPlaces-map [] f h = tt
AllPlaces-map ((id, i) ∷ rest) f h = (f i h.0, AllPlaces-map rest f h.1)

-- What holds of every place of the bus holds of the place of a subscriber.
pub lookup-AllPlaces :
    (P : ℕ → Type 0) (id : String) (i : ℕ) (bus : Dict ℕ)
    → AllPlaces P bus
    → lookup id bus ≡ some i
    → P i
unfolding lookup
lookup-AllPlaces P id i [] h e = absurd (impossible e)
  where
    impossible : none ≡ some i → ⊥
    impossible p = cc
lookup-AllPlaces P id i ((k, j) ∷ rest) h e = elim (Bool-cases (str_eq k id)) [
  | inl s ↦ subst P (here s) h.0
  | inr s ↦ lookup-AllPlaces P id i rest h.1 (there s)
]
  where
    here : str_eq k id ≡ true → j ≡ i
    here s = ground (arith, e)

    there : str_eq k id ≡ false → lookup id rest ≡ some i
    there s = ground (arith, e)

insert-AllPlaces :
    (P : ℕ → Type 0) (id : String) (n : ℕ) (bus : Dict ℕ)
    → P n
    → AllPlaces P bus
    → AllPlaces P (insert id n bus)
unfolding insert
insert-AllPlaces P id n [] p h = (p, tt)
insert-AllPlaces P id n ((k, j) ∷ rest) p h = elim (Bool-cases (str_eq k id)) [
  | inl s ↦ rw (s, insert) (p, h.1)
  | inr s ↦ rw (s, insert) (h.0, insert-AllPlaces P id n rest p h.1)
]

insert-IsDistinct :
    (id : String) (n : ℕ) (bus : Dict ℕ)
    → AllPlaces (λ i. i ≢ n) bus
    → IsDistinct bus
    → IsDistinct (insert id n bus)
unfolding insert
insert-IsDistinct id n [] h d = (tt, tt)
insert-IsDistinct id n ((k, j) ∷ rest) h d = elim (Bool-cases (str_eq k id)) [
  | inl s ↦ rw (s, insert) (h.1, d.1)
  | inr s ↦
      rw (s, insert)
        (
          insert-AllPlaces (λ i. i ≢ j) id n rest (λ e. h.0 (sym e)) d.0,
          insert-IsDistinct id n rest h.1 d.1,
        )
]

remove-AllPlaces :
    (P : ℕ → Type 0) (id : String) (bus : Dict ℕ) → AllPlaces P bus → AllPlaces P (remove id bus)
unfolding remove
remove-AllPlaces P id [] h = tt
remove-AllPlaces P id ((k, j) ∷ rest) h = elim (Bool-cases (str_eq k id)) [
  | inl s ↦ rw (s, remove) (remove-AllPlaces P id rest h.1)
  | inr s ↦ rw (s, remove) (h.0, remove-AllPlaces P id rest h.1)
]

remove-IsDistinct : (id : String) (bus : Dict ℕ) → IsDistinct bus → IsDistinct (remove id bus)
unfolding remove
remove-IsDistinct id [] d = tt
remove-IsDistinct id ((k, j) ∷ rest) d = elim (Bool-cases (str_eq k id)) [
  | inl s ↦ rw (s, remove) (remove-IsDistinct id rest d.1)
  | inr s ↦
      rw (s, remove) (remove-AllPlaces (λ i. i ≢ j) id rest d.0, remove-IsDistinct id rest d.1)
]

-- The place of a subscriber that is removed is not on the bus any more.
remove-place :
    (id : String) (i : ℕ) (bus : Dict ℕ)
    → IsDistinct bus
    → lookup id bus ≡ some i
    → AllPlaces (λ j. j ≢ i) (remove id bus)
unfolding remove lookup
remove-place id i [] d e = tt
remove-place id i ((k, j) ∷ rest) d e = elim (Bool-cases (str_eq k id)) [
  | inl s ↦
      rw (s, remove)
        (subst (λ p. AllPlaces (λ m. m ≢ p) (remove id rest)) (here s)
          (remove-AllPlaces (λ m. m ≢ j) id rest d.0))
  | inr s ↦
      rw (s, remove)
        (
          (λ q. lookup-AllPlaces (λ m. m ≢ j) id i rest d.0 (there s) (sym q)),
          remove-place id i rest d.1 (there s),
        )
]
  where
    here : str_eq k id ≡ true → j ≡ i
    here s = ground (arith, e)

    there : str_eq k id ≡ false → lookup id rest ≡ some i
    there s = ground (arith, e)

-- A result that is not a panic and keeps the invariant.
abbrev pub IsFine : Option Lifecycle → Type 0
IsFine o = (l : Lifecycle) × (o ≡ some l) × IsSound l

deliver_keeps :
    (ev : SystemEvent) (b : Bool) (c : Channel)
    → (c.closed ≡ false → (if b then deliver ev c else c).closed ≡ false)
      × (length c.buffer ≤ c.cap
          → length (if b then deliver ev c else c).buffer ≤ (if b then deliver ev c else c).cap)
unfolding deliver
deliver_keeps ev b c = (λ h. ground arith, λ h. ground (arith, length-append c.buffer (ev ∷ [])))

emit-IsFine :
    (t s : String) (params : Dict String) (l : Lifecycle)
    → IsSound l
    → IsFine (emit_state_change_event t s params l)
unfolding emit_state_change_event
emit-IsFine t s params l h =
    let ev : SystemEvent = record { event_type = t; state = s; params = params } in
    let (after, e, each) = emit_all_lem ev l.system_event_bus l.channels h.opened h.distinct in
    (
      record l { channels = after },
      rw (e, emit_state_change_event),
      record {
        opened =
            AllPlaces-map l.system_event_bus
              (λ i (o : IsOpen l.channels i).
                rw (each i) ((deliver_keeps ev (on_bus i l.system_event_bus) (l.channels i)).0 o))
              h.opened;
        distinct = h.distinct;
        allocated = h.allocated;
        bounded = λ i.
            rw (each i)
              ((deliver_keeps ev (on_bus i l.system_event_bus) (l.channels i)).1 (h.bounded i));
      },
    )

below-ne : (n : ℕ) (bus : Dict ℕ) → AllPlaces (λ i. i < n) bus → AllPlaces (λ i. i ≢ n) bus
below-ne n [] h = tt
below-ne n ((id, i) ∷ rest) h = (omega (arith, h.0), below-ne n rest h.1)

below-suc : (n : ℕ) (bus : Dict ℕ) → AllPlaces (λ i. i < n) bus → AllPlaces (λ i. i < n + 1) bus
below-suc n [] h = tt
below-suc n ((id, i) ∷ rest) h = (omega (arith, h.0), below-suc n rest h.1)

update_bounded :
    (b : Bool) (c d : Channel)
    → length c.buffer ≤ c.cap
    → length d.buffer ≤ d.cap
    → length (if b then c else d).buffer ≤ (if b then c else d).cap
update_bounded true c d h k = h
update_bounded false c d h k = k

pub subscribe_sized-IsSound :
    (id : String) (size : ℕ) (l : Lifecycle) → IsSound l → IsSound (subscribe_sized id size l).0
unfolding subscribe_sized
subscribe_sized-IsSound id size l h = elim (Option-cases (lookup id l.system_event_bus)) [
  | inr (i, e) ↦ rw (e, subscribe_sized) h
  | inl e ↦
      let fresh = below-ne l.next_channel l.system_event_bus h.allocated in
      rw (e, subscribe_sized)
        (record {
          opened =
              insert-AllPlaces (IsOpen (update l.channels l.next_channel (make_channel size))) id
                l.next_channel l.system_event_bus (fresh_open l.next_channel l.channels)
                (update-IsOpen l.next_channel (make_channel size) l.channels l.system_event_bus
                  h.opened fresh);
          distinct = insert-IsDistinct id l.next_channel l.system_event_bus fresh h.distinct;
          allocated =
              insert-AllPlaces (λ i. i < l.next_channel + 1) id l.next_channel l.system_event_bus
                (omega arith) (below-suc l.next_channel l.system_event_bus h.allocated);
          bounded = λ i.
              update_bounded (l.next_channel == i) (make_channel size) (l.channels i) (omega arith)
                (h.bounded i);
        })
]
  where
    fresh_open :
        (n : ℕ) (channels : ℕ → Channel) → (update channels n (make_channel size) n).closed ≡ false
    fresh_open n channels = ground arith

unsubscribe-IsFine : (id : String) (l : Lifecycle) → IsSound l → IsFine (unsubscribe id l)
unfolding unsubscribe
unsubscribe-IsFine id l h = elim (Option-cases (lookup id l.system_event_bus)) [
  | inl e ↦ rw (e, unsubscribe) (l, refl, h)
  | inr (i, e) ↦
      let closed = record (l.channels i) { closed = true } in
      let is_open = lookup-AllPlaces (IsOpen l.channels) id i l.system_event_bus h.opened e in
      rw (e, unsubscribe, is_open)
        (
          record l {
            channels = update l.channels i closed;
            system_event_bus = remove id l.system_event_bus;
          },
          refl,
          record {
            opened =
                update-IsOpen i closed l.channels (remove id l.system_event_bus)
                  (remove-AllPlaces (IsOpen l.channels) id l.system_event_bus h.opened)
                  (remove-place id i l.system_event_bus h.distinct e);
            distinct = remove-IsDistinct id l.system_event_bus h.distinct;
            allocated =
                remove-AllPlaces (λ j. j < l.next_channel) id l.system_event_bus h.allocated;
            bounded =
                λ j. update_bounded (i == j) closed (l.channels j) (h.bounded i) (h.bounded j);
          },
        )
]

length-tail_of : (b : List SystemEvent) → length (tail_of b) ≤ length b
length-tail_of [] = omega arith
length-tail_of (x ∷ r) = omega arith

receive-IsSound : (i : ℕ) (l : Lifecycle) → IsSound l → IsSound (receive i l)
unfolding receive
receive-IsSound i l h = record {
  opened =
      AllPlaces-map l.system_event_bus (λ j (o : IsOpen l.channels j). still (i == j) refl o)
        h.opened;
  distinct = h.distinct;
  allocated = h.allocated;
  bounded = λ j.
      update_bounded (i == j) (rest_of (l.channels i)) (l.channels j)
        (omega (arith, length-tail_of (l.channels i).buffer, h.bounded i)) (h.bounded j);
}
  where
    still :
        {j : ℕ} (b : Bool)
        → (i == j) ≡ b
        → IsOpen l.channels j
        → (if b then rest_of (l.channels i) else l.channels j).closed ≡ false
    still {j} true e o = rw ((==_iff i j).0 e) o
    still false e o = o

pub fields_IsSound :
    (l m : Lifecycle)
    → m.system_event_bus ≡ l.system_event_bus
    → m.channels ≡ l.channels
    → m.next_channel ≡ l.next_channel
    → IsSound l
    → IsSound m
fields_IsSound l m b c n h = record {
  opened = rw (b, c) h.opened;
  distinct = rw b h.distinct;
  allocated = rw (b, n) h.allocated;
  bounded = rw c h.bounded;
}

either :
    (b : Bool) (l : Lifecycle) (o : Option Lifecycle)
    → IsSound l
    → IsFine o
    → IsFine (if b then some l else o)
either true l o h k = (l, refl, h)
either false l o h k = k

set_field-IsFine :
    (f : Field) (s : String) (params : Dict String) (l : Lifecycle)
    → IsSound l
    → IsFine (set_field f s params l)
unfolding set_field set_app_health set_config_state set_auth_state set_conn_state
set_field-IsFine health s params l h = either (str_eq s l.app_health) l _ h (
    emit-IsFine state_type_app_health s params (record l { app_health = s })
      (fields_IsSound l _ refl refl refl h))
set_field-IsFine config s params l h = either (str_eq s l.config_state) l _ h (
    emit-IsFine state_type_config_state s [] (record l { config_state = s })
      (fields_IsSound l _ refl refl refl h))
set_field-IsFine auth s params l h = either (str_eq s l.auth_state) l _ h (
    emit-IsFine state_type_auth_state s [] (record l { auth_state = s })
      (fields_IsSound l _ refl refl refl h))
set_field-IsFine conn s params l h = either (str_eq s l.connection_state) l _ h (
    emit-IsFine state_type_conn_state s [] (record l { connection_state = s })
      (fields_IsSound l _ refl refl refl h))

-- A call of `Subscribe` asks for a buffer that is not negative.
abbrev pub IsSized : Op → Type 0
IsSized (subscribe_op id size) = pos 0 ≤ℤ size
IsSized _ = Unit

step-IsFine : (op : Op) (l : Lifecycle) → IsSized op → IsSound l → IsFine (step op l)
unfolding step subscribe
step-IsFine (set_op f s params) l z h = set_field-IsFine f s params l h
step-IsFine (subscribe_op id (pos size)) l z h =
    ((subscribe_sized id size l).0, refl, subscribe_sized-IsSound id size l h)
step-IsFine (subscribe_op id (negsuc n)) l z h = absurd (omega arith)
step-IsFine (unsubscribe_op id) l z h = unsubscribe-IsFine id l h
step-IsFine (receive_op i) l z h = (receive i l, refl, receive-IsSound i l h)

-- From a sound state, any sequence of calls in which no `Subscribe` asks for a negative buffer, by any
-- callers, runs without a panic (no event is sent on a closed channel and no channel is closed twice),
-- and ends in a sound state.
pub run-IsFine : (ops : List Op) (l : Lifecycle) → All IsSized ops → IsSound l → IsFine (run ops l)
unfolding run
run-IsFine [] l z h = (l, refl, h)
run-IsFine (op ∷ rest) l (z, zs) h =
    let (l', e, h') = step-IsFine op l z h in rw (e, run) (run-IsFine rest l' zs h')

pub new-IsSound : (now : Time) (increment : Option ℤ) → IsSound (new now increment)
unfolding new
new-IsSound now increment = record {
  opened = tt;
  distinct = tt;
  allocated = tt;
  bounded = λ i. omega arith;
}
