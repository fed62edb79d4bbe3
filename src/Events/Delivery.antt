-- ===== src/Events/Delivery.antt =====
-- event/manager.go: which subscribers get an event.
use cliffhanger.Prelude.{
  ℕ, ◌<◌, ◌⊎◌, true, ltb→lt, String, ◌≡◌, refl, sym, ap, ◌∙◌, inl, inr, Bool, false, ◌&&◌, ◌||◌,
  some, List, [], ◌∷◌, ◌++◌, arith, str_eq, ltb, ◌==◌, if◌then◌else◌, ==_iff, Bool-cases,
  Option-cases, nat_eq, string_eq, length, All,
}
use cliffhanger.Prelude.Int.{int_eq}
use cliffhanger.Prelude.Dict.{Dict, lookup}
use cliffhanger.Events.{
  Channel, Subscription, Manager, set_channel, filter, offer, publish_to, publish,
}
use cliffhanger.Events.Safety.{IsElsewhere, IsWired, IsSound, apart_wired}
use cliffhanger.Events.Runs.{found_elsewhere}

module _ {E : Type 0} (awaited : ℕ → Bool) (event : E) where
  -- the queue of a subscription's channel after an event is published
  unfoldable pub queue_after : Subscription E → Channel E → List E
  unfolding filter
  queue_after s c =
      if filter s.filters event && (ltb (length c.queue) c.buffer || awaited s.channel)
      then c.queue ++ (event ∷ [])
      else c.queue

  -- what a delivery of the event makes of a channel, by the filters and the room that there are
  abbrev Takes : (E → Bool) → Type 0
  Takes f = f event ≡ true

  abbrev HasRoom : Subscription E → Channel E → Type 0
  HasRoom s c = (length c.queue < c.buffer) ⊎ (awaited s.channel ≡ true)

  -- Either every filter takes the event and the channel has room, and the event is the last of its queue
  -- now; or a filter refuses it or there is no room, and the queue is as it was.
  abbrev pub IsDelivered : Subscription E → Channel E → Channel E → Type 0
  IsDelivered s c c' =
      (All Takes s.filters × HasRoom s c × (c'.queue ≡ c.queue ++ (event ∷ [])))
      ⊎ (((All Takes s.filters → ⊥) ⊎ (HasRoom s c → ⊥)) × (c'.queue ≡ c.queue))

  filter-Takes : (fs : List (E → Bool)) → filter fs event ≡ true → All Takes fs
  unfolding filter
  filter-Takes [] q = tt
  filter-Takes (f ∷ fs) q = elim (Bool-cases (f event)) [
    | inl e ↦ (e, filter-Takes fs (rw e at q))
    | inr e ↦ absurd (cc (rw e at q))
  ]

  filter-not_Takes : (fs : List (E → Bool)) → filter fs event ≡ false → All Takes fs → ⊥
  unfolding filter
  filter-not_Takes [] q a = absurd cc
  filter-not_Takes (f ∷ fs) q (e, a) = filter-not_Takes fs (rw e at q) a

  queue_after-IsDelivered :
      (s : Subscription E) (c c' : Channel E) → c'.queue ≡ queue_after s c → IsDelivered s c c'
  unfolding queue_after
  queue_after-IsDelivered s c c' q = elim (Bool-cases (filter s.filters event)) [
    | inr f ↦ inr (inl (filter-not_Takes s.filters f), rw f at q)
    | inl f ↦ elim (Bool-cases (ltb (length c.queue) c.buffer)) [
      | inl l ↦ inl (filter-Takes s.filters f, inl (ltb→lt _ _ l), rw (f, l) at q)
      | inr l ↦ elim (Bool-cases (awaited s.channel)) [
        | inl w ↦ inl (filter-Takes s.filters f, inr w, rw (f, l, w) at q)
        | inr w ↦ inr (inr (λ r. ground arith), rw (f, l, w) at q)
      ]
    ]
  ]

  untouched :
      (i : ℕ) (subs : Dict (Subscription E)) (channels others : ℕ → Channel E)
      → All (IsElsewhere i) subs
      → publish_to awaited event subs channels ≡ some others
      → others i ≡ channels i
  unfolding publish_to offer
  untouched i [] channels others a q = cc
  untouched i ((id, s) ∷ subs) channels others (n, a) q =
      let away : (i == s.channel) ≡ false = ground (arith, ==_iff i s.channel) in
      elim (Bool-cases (filter s.filters event)) [
        | inr f ↦ untouched i subs channels others a (rw f at q)
        | inl f ↦ elim (Option-cases (offer (awaited s.channel) event (channels s.channel))) [
          | inl o ↦ absurd (cc (rw (f, o) at q))
          | inr (c, o) ↦
              untouched i subs (set_channel s.channel c channels) others a (rw (f, o) at q)
              ∙ rw away refl
        ]
      ]

  delivered_here :
      (id : String) (s : Subscription E) (subs : Dict (Subscription E))
      (channels others : ℕ → Channel E)
      → (channels s.channel).is_closed ≡ false
      → All (IsElsewhere s.channel) subs
      → publish_to awaited event ((id, s) ∷ subs) channels ≡ some others
      → (others s.channel).queue ≡ queue_after s (channels s.channel)
  unfolding publish_to offer queue_after
  delivered_here id s subs channels others o a r =
      let c = channels s.channel in
      let longer : Channel E = record {
        buffer = c.buffer;
        queue = c.queue ++ (event ∷ []);
        is_closed = false;
      } in
      let here = (==_iff s.channel s.channel).1 refl in
      elim (Bool-cases (filter s.filters event)) [
        | inr f ↦ rw f (ap (λ k. k.queue) (untouched s.channel subs channels others a (rw f at r)))
        | inl f ↦ elim (Bool-cases (ltb (length c.queue) c.buffer || awaited s.channel)) [
          | inl g ↦
              rw (f, g)
                (ap (λ k. k.queue)
                    (untouched s.channel subs (set_channel s.channel longer channels) others a
                      (rw (f, o, g) at r))
                  ∙ rw here refl)
          | inr g ↦
              rw (f, g)
                (ap (λ k. k.queue)
                    (untouched s.channel subs
                      (set_channel s.channel
                        (record { buffer = c.buffer; queue = c.queue; is_closed = false }) channels)
                      others a (rw (f, o, g) at r))
                  ∙ rw here refl)
        ]
      ]

  delivered :
      (id : String) (s : Subscription E) (next : ℕ) (subs : Dict (Subscription E))
      (channels others : ℕ → Channel E)
      → IsWired channels next subs
      → lookup id subs ≡ some s
      → publish_to awaited event subs channels ≡ some others
      → (others s.channel).queue ≡ queue_after s (channels s.channel)
  unfolding publish_to lookup
  delivered id s next [] channels others h q r = absurd cc
  delivered id s next ((k, t) ∷ subs) channels others (p, o, a, h) q r =
      elim (Bool-cases (str_eq k id)) [
        | inl e ↦
            (let same : t ≡ s = cc (rw e at q) in
              delivered_here k s subs channels others (rw same at o) (rw same at a) (rw same at r))
        | inr e ↦ elim (Bool-cases (filter t.filters event)) [
          | inr f ↦ delivered id s next subs channels others h (rw e at q) (rw f at r)
          | inl f ↦ elim (Option-cases (offer (awaited t.channel) event (channels t.channel))) [
            | inl b ↦ absurd (cc (rw (f, b) at r))
            | inr (c, b) ↦
                (let rest : lookup id subs ≡ some s = rw e at q in
                  let apart = found_elsewhere t.channel id s subs a rest in
                  let away : (s.channel == t.channel) ≡ false =
                    ground (arith, ==_iff s.channel t.channel) in
                  delivered id s next subs (set_channel t.channel c channels) others
                    (apart_wired t.channel next c channels subs a h) rest (rw (f, b) at r)
                  ∙ rw away refl)
          ]
        ]
      ]

  publish-queue_after :
      (id : String) (s : Subscription E) (m m' : Manager E)
      → IsSound m
      → lookup id m.subscriptions ≡ some s
      → publish awaited event m ≡ some m'
      → (m'.channels s.channel).queue ≡ queue_after s (m.channels s.channel)
  unfolding publish
  publish-queue_after id s m m' h q r =
      elim (Option-cases (publish_to awaited event m.subscriptions m.channels)) [
        | inl e ↦ absurd (cc (rw e at r))
        | inr (others, e) ↦
            (let same : record m { channels = others } ≡ m' = cc (rw e at r) in
              ap (λ k. (k.channels s.channel).queue) (sym same)
              ∙ delivered id s m.next_channel m.subscriptions m.channels others h q e)
      ]

  -- In a sound manager, where every subscription has an open channel of its own, a subscriber gets a
  -- published event, behind those that wait for it, exactly when every one of its filters takes the event
  -- and its buffer has room or it waits; else its events stay as they are.
  pub publish-IsDelivered :
      (id : String) (s : Subscription E) (m m' : Manager E)
      → IsSound m
      → lookup id m.subscriptions ≡ some s
      → publish awaited event m ≡ some m'
      → IsDelivered s (m.channels s.channel) (m'.channels s.channel)
  publish-IsDelivered id s m m' h q r =
      queue_after-IsDelivered s (m.channels s.channel) (m'.channels s.channel)
        (publish-queue_after id s m m' h q r)
