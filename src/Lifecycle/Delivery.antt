-- ===== src/Lifecycle/Delivery.antt =====
-- Who is told of a change of a state of lifecycle/lifecycle.go, and that nothing else changes.
use cliffhanger.Prelude.{
  ℕ, String, ◌≡◌, refl, ◌≢◌, inl, inr, Bool, true, false, some, [], str_eq, eq_iff, eq_refl,
  if◌then◌else◌, Bool-cases, nat_eq, string_eq,
}
use cliffhanger.Prelude.Int.{int_eq}
use cliffhanger.Prelude.Dict.{Dict}
use cliffhanger.Lifecycle.{
  SystemEvent, Channel, Lifecycle, emit_state_change_event, set_config_state, field_type, get_field,
  set_auth_state, set_conn_state, set_app_health, Field, health, config, auth, conn, set_field,
  state_type_app_health, state_type_config_state, state_type_auth_state, state_type_conn_state,
}
use cliffhanger.Lifecycle.Bus.{deliver, on_bus, emit_all_lem}
use cliffhanger.Lifecycle.Sound.{IsSound, fields_IsSound}

abbrev pub same_field : Field → Field → Bool
same_field health health = true
same_field config config = true
same_field auth auth = true
same_field conn conn = true
same_field _ _ = false

-- the parameters that reach the event
abbrev pub params_of : Field → Dict String → Dict String
params_of health params = params
params_of _ params = []

abbrev pub event_of : Field → String → Dict String → SystemEvent
event_of f s params = record { event_type = field_type f; state = s; params = params_of f params }

-- A change of one field: the field has the new state and the others theirs, the bus is as before, and
-- every channel of the bus, and no other, has been offered the event once.
pub record IsChange (f : Field) (s : String) (params : Dict String) (l m : Lifecycle) : Type 0 where
  pub fields : (g : Field) → get_field g m ≡ (if same_field f g then s else get_field g l)
  pub same_bus : m.system_event_bus ≡ l.system_event_bus
  pub offered :
      (j : ℕ)
      → m.channels j ≡ (
          if on_bus j l.system_event_bus
          then deliver (event_of f s params) (l.channels j)
          else l.channels j)

emitted :
    (t s : String) (params : Dict String) (l : Lifecycle)
    → IsSound l
    → (after : ℕ → Channel) × (emit_state_change_event t s params l
        ≡ some (record l { channels = after }))
      × ((j : ℕ)
          → after j ≡ (
              if on_bus j l.system_event_bus
              then deliver (record { event_type = t; state = s; params = params }) (l.channels j)
              else l.channels j))
unfolding emit_state_change_event
emitted t s params l h =
    let ev : SystemEvent = record { event_type = t; state = s; params = params } in
    let (after, e, each) = emit_all_lem ev l.system_event_bus l.channels h.opened h.distinct in
    (after, rw (e, emit_state_change_event), each)

pub differs : (s t : String) → s ≢ t → str_eq s t ≡ false
differs s t n = elim (Bool-cases (str_eq s t)) [ inl e ↦ absurd (n ((eq_iff s t).0 e)) | inr e ↦ e ]

-- In a sound lifecycle, setting any of the four states to a value that it does not have succeeds, and
-- is a change of that state alone that every subscriber of the bus is told of, as far as its buffer has
-- room.
pub set_field-IsChange :
    (f : Field) (s : String) (params : Dict String) (l : Lifecycle)
    → IsSound l
    → s ≢ get_field f l
    → (m : Lifecycle) × (set_field f s params l ≡ some m) × IsChange f s params l m
unfolding set_field set_app_health set_config_state set_auth_state set_conn_state
set_field-IsChange health s params l h n =
    let l1 = record l { app_health = s } in
    let (after, e, each) =
      emitted state_type_app_health s params l1 (fields_IsSound l l1 refl refl refl h) in
    (
      record l1 { channels = after },
      rw (differs s l.app_health n) e,
      record { fields = by_field after; same_bus = refl; offered = each },
    )
  where
    by_field :
        (c : ℕ → Channel) (g : Field)
        → get_field g (record l { app_health = s; channels = c })
          ≡ (if same_field health g then s else get_field g l)
    by_field c health = refl
    by_field c config = refl
    by_field c auth = refl
    by_field c conn = refl
set_field-IsChange config s params l h n =
    let l1 = record l { config_state = s } in
    let (after, e, each) =
      emitted state_type_config_state s [] l1 (fields_IsSound l l1 refl refl refl h) in
    (
      record l1 { channels = after },
      rw (differs s l.config_state n) e,
      record { fields = by_field after; same_bus = refl; offered = each },
    )
  where
    by_field :
        (c : ℕ → Channel) (g : Field)
        → get_field g (record l { config_state = s; channels = c })
          ≡ (if same_field config g then s else get_field g l)
    by_field c health = refl
    by_field c config = refl
    by_field c auth = refl
    by_field c conn = refl
set_field-IsChange auth s params l h n =
    let l1 = record l { auth_state = s } in
    let (after, e, each) =
      emitted state_type_auth_state s [] l1 (fields_IsSound l l1 refl refl refl h) in
    (
      record l1 { channels = after },
      rw (differs s l.auth_state n) e,
      record { fields = by_field after; same_bus = refl; offered = each },
    )
  where
    by_field :
        (c : ℕ → Channel) (g : Field)
        → get_field g (record l { auth_state = s; channels = c })
          ≡ (if same_field auth g then s else get_field g l)
    by_field c health = refl
    by_field c config = refl
    by_field c auth = refl
    by_field c conn = refl
set_field-IsChange conn s params l h n =
    let l1 = record l { connection_state = s } in
    let (after, e, each) =
      emitted state_type_conn_state s [] l1 (fields_IsSound l l1 refl refl refl h) in
    (
      record l1 { channels = after },
      rw (differs s l.connection_state n) e,
      record { fields = by_field after; same_bus = refl; offered = each },
    )
  where
    by_field :
        (c : ℕ → Channel) (g : Field)
        → get_field g (record l { connection_state = s; channels = c })
          ≡ (if same_field conn g then s else get_field g l)
    by_field c health = refl
    by_field c config = refl
    by_field c auth = refl
    by_field c conn = refl

-- Setting a state to the value that it has changes nothing and tells nobody.
pub set_field-same :
    (f : Field) (params : Dict String) (l : Lifecycle)
    → set_field f (get_field f l) params l ≡ some l
unfolding set_field set_app_health set_config_state set_auth_state set_conn_state
set_field-same health params l = simp eq_refl
set_field-same config params l = simp eq_refl
set_field-same auth params l = simp eq_refl
set_field-same conn params l = simp eq_refl
