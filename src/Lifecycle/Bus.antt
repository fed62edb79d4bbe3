-- ===== src/Lifecycle/Bus.antt =====
-- What `emitStateChangeEvent` of lifecycle/lifecycle.go does to the channels of the bus.
use cliffhanger.Prelude.{
  ℕ, String, ◌≡◌, refl, sym, ◌∙◌, ◌≢◌, inl, inr, Bool, true, false, ◌||◌, some, [], ◌∷◌, ◌++◌,
  arith, ltb, ◌==◌, if◌then◌else◌, ==_iff, Bool-cases, nat_eq, string_eq, length, All,
}
use cliffhanger.Prelude.Int.{int_eq}
use cliffhanger.Prelude.Dict.{Dict}
use cliffhanger.Lifecycle.{SystemEvent, Channel, update, send, emit_all}

-- The places of the bus all satisfy `P`.
abbrev pub AllPlaces : (ℕ → Type 0) → Dict ℕ → Type 0
AllPlaces P = All (λ e. P e.1)

abbrev pub IsOpen : (ℕ → Channel) → ℕ → Type 0
IsOpen channels i = (channels i).closed ≡ false

-- No place stands twice on the bus.
abbrev pub IsDistinct : Dict ℕ → Type 0
IsDistinct [] = Unit
IsDistinct (e ∷ rest) = AllPlaces (λ i. i ≢ e.1) rest × IsDistinct rest

-- An open channel takes an event if there is room.
unfoldable pub deliver : SystemEvent → Channel → Channel
deliver ev c = if ltb (length c.buffer) c.cap then record c { buffer = c.buffer ++ ev ∷ [] } else c

unfoldable pub on_bus : ℕ → Dict ℕ → Bool
on_bus j [] = false
on_bus j ((id, i) ∷ rest) = i == j || on_bus j rest

send-deliver : (ev : SystemEvent) (c : Channel) → c.closed ≡ false → send ev c ≡ some (deliver ev c)
unfolding send deliver
send-deliver ev c h = ground arith

emit_all-cons :
    (ev : SystemEvent) (id : String) (i : ℕ) (rest : Dict ℕ) (channels : ℕ → Channel)
    → (channels i).closed ≡ false
    → emit_all ev ((id, i) ∷ rest) channels
      ≡ emit_all ev rest (update channels i (deliver ev (channels i)))
unfolding emit_all
emit_all-cons ev id i rest channels h = rw (send-deliver ev (channels i) h, emit_all)

-- Changing the channel at a place that is not on the bus leaves the bus open.
pub update-IsOpen :
    (i : ℕ) (c : Channel) (channels : ℕ → Channel) (bus : Dict ℕ)
    → AllPlaces (IsOpen channels) bus
    → AllPlaces (λ j. j ≢ i) bus
    → AllPlaces (IsOpen (update channels i c)) bus
update-IsOpen i c channels [] h n = tt
update-IsOpen i c channels ((id, j) ∷ rest) h n =
    (elsewhere (i == j) refl, update-IsOpen i c channels rest h.1 n.1)
  where
    elsewhere : (b : Bool) → (i == j) ≡ b → (if b then c else channels j).closed ≡ false
    elsewhere true e = absurd (n.0 (sym ((==_iff i j).0 e)))
    elsewhere false e = h.0

not_on_bus : (j : ℕ) (bus : Dict ℕ) → AllPlaces (λ i. i ≢ j) bus → on_bus j bus ≡ false
unfolding on_bus
not_on_bus j [] h = refl
not_on_bus j ((id, i) ∷ rest) h = ground (arith, not_on_bus j rest h.1, h.0)

-- Where the bus holds open channels at distinct places, an event is delivered to each of them once,
-- and no other channel changes.
pub emit_all_lem :
    (ev : SystemEvent) (bus : Dict ℕ) (channels : ℕ → Channel)
    → AllPlaces (IsOpen channels) bus
    → IsDistinct bus
    → (after : ℕ → Channel) × (emit_all ev bus channels ≡ some after)
      × ((j : ℕ) → after j ≡ (if on_bus j bus then deliver ev (channels j) else channels j))
unfolding emit_all on_bus
emit_all_lem ev [] channels h d = (channels, refl, λ j. refl)
emit_all_lem ev ((id, i) ∷ rest) channels h d =
    let now = update channels i (deliver ev (channels i)) in
    let ih = emit_all_lem ev rest now (update-IsOpen i _ channels rest h.1 d.0) d.1 in
    (ih.0, emit_all-cons ev id i rest channels h.0 ∙ ih.1, λ j. ih.2 j ∙ delivered j)
  where
    delivered :
        (j : ℕ)
        → (if on_bus j rest
            then deliver ev (update channels i (deliver ev (channels i)) j)
            else update channels i (deliver ev (channels i)) j)
          ≡ (if i == j || on_bus j rest then deliver ev (channels j) else channels j)
    delivered j = elim (Bool-cases (i == j)) [
      | inl e ↦ let same = (==_iff i j).0 e in rw (e, ← same, not_on_bus i rest d.0)
      | inr e ↦ rw e
    ]
