-- ===== src/Events/Safety.antt =====
-- event/manager.go: the calls, and which channels the subscriptions have while events are published.
use cliffhanger.Prelude.{
  ℕ, ◌<◌, String, ◌≡◌, refl, ◌∙◌, ◌≢◌, inl, inr, Bool, false, ◌||◌, some, List, [], ◌∷◌, ◌++◌,
  arith, ltb, ◌==◌, ==_iff, Bool-cases, nat_eq, string_eq, length, All,
}
use cliffhanger.Prelude.Int.{ℤ, int_eq}
use cliffhanger.Prelude.Dict.{Dict}
use cliffhanger.Events.{Channel, Subscription, Manager, set_channel, filter, offer, publish_to}

-- calls of the manager, receives of its subscribers, and the ends of `WaitFor`
pub data EventOp (E : Type 0) : Type 0 where
  publish_op : (ℕ → Bool) → E → EventOp E
  subscribe_op : String → ℤ → List (E → Bool) → EventOp E
  unsubscribe_op : String → EventOp E
  receive_op : ℕ → EventOp E
  wait_ends_op : String → ℕ → Bool → EventOp E

module _ {E : Type 0} where
  abbrev pub IsElsewhere : ℕ → String × Subscription E → Type 0
  IsElsewhere i entry = entry.1.channel ≢ i

  -- Each subscription has an open channel of its own.
  abbrev pub IsWired : (ℕ → Channel E) → ℕ → Dict (Subscription E) → Type 0
  IsWired channels next [] = Unit
  IsWired channels next (entry ∷ subs) =
      (entry.1.channel < next)
      × ((channels entry.1.channel).is_closed ≡ false)
      × All (IsElsewhere entry.1.channel) subs
      × IsWired channels next subs

  abbrev pub IsSound : Manager E → Type 0
  IsSound m = IsWired m.channels m.next_channel m.subscriptions

  -- The same channels are closed.
  abbrev pub IsAlike : (ℕ → Channel E) → (ℕ → Channel E) → Type 0
  IsAlike channels others = (j : ℕ) → (others j).is_closed ≡ (channels j).is_closed

  pub alike_wired :
      (channels others : ℕ → Channel E) (next : ℕ) (subs : Dict (Subscription E))
      → IsAlike channels others
      → IsWired channels next subs
      → IsWired others next subs
  alike_wired channels others next [] same h = tt
  alike_wired channels others next (entry ∷ subs) same (p, q, r, h) =
      (p, same entry.1.channel ∙ q, r, alike_wired channels others next subs same h)

  -- A channel in the place of one that is as open.
  pub set_channel-IsAlike :
      (i : ℕ) (c : Channel E) (channels : ℕ → Channel E)
      → c.is_closed ≡ (channels i).is_closed
      → IsAlike channels (set_channel i c channels)
  set_channel-IsAlike i c channels q j = elim (Bool-cases (j == i)) [
    | inl e ↦ rw (e, (==_iff j i).0 e) q
    | inr e ↦ rw e refl
  ]

  offer_lem :
      (awaited : Bool) (event : E) (c : Channel E)
      → c.is_closed ≡ false
      → (c' : Channel E) × (offer awaited event c ≡ some c') × (c'.is_closed ≡ c.is_closed)
  unfolding offer
  offer_lem awaited event c q = elim (Bool-cases (ltb (length c.queue) c.buffer || awaited)) [
    | inl e ↦ (record c { queue = c.queue ++ (event ∷ []) }, rw (q, e) refl, refl)
    | inr e ↦ (c, rw (q, e) refl, refl)
  ]

  pub publish_to_lem :
      (awaited : ℕ → Bool) (event : E) (next : ℕ) (subs : Dict (Subscription E))
      (channels : ℕ → Channel E)
      → IsWired channels next subs
      → (others : ℕ → Channel E) × (publish_to awaited event subs channels ≡ some others)
        × IsAlike channels others
  unfolding publish_to
  publish_to_lem awaited event next [] channels h = (channels, refl, λ j. refl)
  publish_to_lem awaited event next ((id, s) ∷ subs) channels (p, q, r, h) =
      let (c, taken, kept) = offer_lem (awaited s.channel) event (channels s.channel) q in
      let changed = set_channel-IsAlike s.channel c channels kept in
      let after = set_channel s.channel c channels in
      elim (Bool-cases (filter s.filters event)) [
        | inl e ↦
            (let (others, done, same) =
                publish_to_lem awaited event next subs after
                  (alike_wired channels after next subs changed h) in
              (others, rw (e, taken) done, λ j. same j ∙ changed j))
        | inr e ↦
            (let (others, done, same) = publish_to_lem awaited event next subs channels h in
              (others, rw e done, same))
      ]

  -- A place that no subscription has may change.
  pub apart_wired :
      (i next : ℕ) (c : Channel E) (channels : ℕ → Channel E) (subs : Dict (Subscription E))
      → All (IsElsewhere i) subs
      → IsWired channels next subs
      → IsWired (set_channel i c channels) next subs
  apart_wired i next c channels [] a h = tt
  apart_wired i next c channels (entry ∷ subs) (n, a) (p, q, r, h) =
      let away : (entry.1.channel == i) ≡ false = ground (arith, ==_iff entry.1.channel i) in
      (p, rw away q, r, apart_wired i next c channels subs a h)
