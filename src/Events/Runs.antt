-- ===== src/Events/Runs.antt =====
-- event/manager.go: sequences of calls of the event manager.
use cliffhanger.Prelude.{
  ℕ, ◌+◌, String, ◌≡◌, refl, ◌≢◌, inl, inr, Bool, true, false, Option, some, List, [], ◌∷◌, arith,
  str_eq, ◌==◌, ==_iff, Bool-cases, Option-cases, nat_eq, string_eq, All,
}
use cliffhanger.Prelude.Int.{pos, negsuc, ◌≤ℤ◌, int_eq}
use cliffhanger.Prelude.Dict.{Dict, lookup, insert, remove}
use cliffhanger.Events.{
  Channel, Subscription, Manager, empty_channel, new_manager, set_channel, and_then, publish,
  subscribe, subscribe_sized, unsubscribe, take_from, receive, wait_ends,
}
use cliffhanger.Events.Safety.{
  EventOp, publish_op, subscribe_op, unsubscribe_op, receive_op, wait_ends_op, IsElsewhere, IsWired,
  IsSound, alike_wired, set_channel-IsAlike, publish_to_lem, apart_wired,
}

module _ {E : Type 0} where
  unfoldable pub event_step : EventOp E → Manager E → Option (Manager E)
  unfolding publish subscribe unsubscribe receive wait_ends
  event_step (publish_op awaited event) m = publish awaited event m
  event_step (subscribe_op id buffer filters) m =
      and_then (subscribe id buffer filters m) λ r. some r.0
  event_step (unsubscribe_op id) m = unsubscribe id m
  event_step (receive_op i) m = some (receive i m).0
  event_step (wait_ends_op id i timeout) m = and_then (wait_ends id i timeout m) λ r. some r.0

  unfoldable pub event_run : List (EventOp E) → Manager E → Option (Manager E)
  unfolding event_step
  event_run [] m = some m
  event_run (op ∷ ops) m = and_then (event_step op m) (event_run ops)

  -- the call does not panic, and leaves every subscription an open channel of its own
  abbrev IsFine : Option (Manager E) → Type 0
  IsFine o = (m' : Manager E) × (o ≡ some m') × IsSound m'

  remove-IsElsewhere :
      (i : ℕ) (id : String) (subs : Dict (Subscription E))
      → All (IsElsewhere i) subs
      → All (IsElsewhere i) (remove id subs)
  unfolding remove
  remove-IsElsewhere i id [] h = tt
  remove-IsElsewhere i id (entry ∷ subs) (n, h) = elim (Bool-cases (str_eq entry.0 id)) [
    | inl e ↦ rw e (remove-IsElsewhere i id subs h)
    | inr e ↦ rw e (n, remove-IsElsewhere i id subs h)
  ]

  remove_wired :
      (id : String) (channels : ℕ → Channel E) (next : ℕ) (subs : Dict (Subscription E))
      → IsWired channels next subs
      → IsWired channels next (remove id subs)
  unfolding remove
  remove_wired id channels next [] h = tt
  remove_wired id channels next (entry ∷ subs) (p, q, r, h) =
      elim (Bool-cases (str_eq entry.0 id)) [
        | inl e ↦ rw e (remove_wired id channels next subs h)
        | inr e ↦ rw e (
          p,
          q,
          remove-IsElsewhere entry.1.channel id subs r,
          remove_wired id channels next subs h,
        )
      ]

  pub found_elsewhere :
      (i : ℕ) (id : String) (s : Subscription E) (subs : Dict (Subscription E))
      → All (IsElsewhere i) subs
      → lookup id subs ≡ some s
      → s.channel ≢ i
  unfolding lookup
  found_elsewhere i id s [] h q = absurd cc
  found_elsewhere i id s (entry ∷ subs) (n, h) q = elim (Bool-cases (str_eq entry.0 id)) [
    | inl e ↦ (let same : entry.1 ≡ s = cc (rw e at q) in rw same at n)
    | inr e ↦ found_elsewhere i id s subs h (rw e at q)
  ]

  -- The channel of a subscription is open, and no other subscription has it.
  removed_wired :
      (id : String) (s : Subscription E) (c : Channel E) (channels : ℕ → Channel E) (next : ℕ)
      (subs : Dict (Subscription E))
      → IsWired channels next subs
      → lookup id subs ≡ some s
      → ((channels s.channel).is_closed ≡ false)
        × IsWired (set_channel s.channel c channels) next (remove id subs)
  unfolding lookup remove
  removed_wired id s c channels next [] h q = absurd cc
  removed_wired id s c channels next (entry ∷ subs) (p, o, r, h) q =
      elim (Bool-cases (str_eq entry.0 id)) [
        | inl e ↦
            (let same : entry.1 ≡ s = cc (rw e at q) in
              rw e (
                rw same at o,
                remove_wired id (set_channel s.channel c channels) next subs
                    (apart_wired s.channel next c channels subs (rw same at r) h),
              ))
        | inr e ↦
            (let rest : lookup id subs ≡ some s = rw e at q in
              let (o', h') = removed_wired id s c channels next subs h rest in
              let apart = found_elsewhere entry.1.channel id s subs r rest in
              let away : (entry.1.channel == s.channel) ≡ false =
                ground (arith, ==_iff entry.1.channel s.channel) in
              rw e (o', (p, rw away o, remove-IsElsewhere entry.1.channel id subs r, h')))
      ]

  insert-IsElsewhere :
      (i : ℕ) (id : String) (s : Subscription E) (subs : Dict (Subscription E))
      → s.channel ≢ i
      → All (IsElsewhere i) subs
      → All (IsElsewhere i) (insert id s subs)
  unfolding insert
  insert-IsElsewhere i id s [] n h = (n, tt)
  insert-IsElsewhere i id s (entry ∷ subs) n (k, h) = elim (Bool-cases (str_eq entry.0 id)) [
    | inl e ↦ rw e (n, h)
    | inr e ↦ rw e (k, insert-IsElsewhere i id s subs n h)
  ]

  IsWired-IsElsewhere :
      (channels : ℕ → Channel E) (next : ℕ) (subs : Dict (Subscription E))
      → IsWired channels next subs
      → All (IsElsewhere next) subs
  IsWired-IsElsewhere channels next [] h = tt
  IsWired-IsElsewhere channels next (entry ∷ subs) (p, q, r, h) =
      (λ e. omega arith, IsWired-IsElsewhere channels next subs h)

  insert_wired :
      (id : String) (s : Subscription E) (channels : ℕ → Channel E) (next : ℕ)
      (subs : Dict (Subscription E))
      → s.channel ≡ next
      → (channels next).is_closed ≡ false
      → IsWired channels next subs
      → IsWired channels (next + 1) (insert id s subs)
  unfolding insert
  insert_wired id s channels next [] e o h = (omega arith, rw e o, tt, tt)
  insert_wired id s channels next (entry ∷ subs) e o (p, q, r, h) =
      elim (Bool-cases (str_eq entry.0 id)) [
        | inl k ↦ rw k (
          omega arith,
          rw e o,
          rw e (IsWired-IsElsewhere channels next subs h),
          grown channels next subs h,
        )
        | inr k ↦ rw k (
          omega arith,
          q,
          insert-IsElsewhere entry.1.channel id s subs (λ w. omega arith) r,
          insert_wired id s channels next subs e o h,
        )
      ]
    where
      grown :
          (channels : ℕ → Channel E) (next : ℕ) (subs : Dict (Subscription E))
          → IsWired channels next subs
          → IsWired channels (next + 1) subs
      grown channels next [] h = tt
      grown channels next (entry ∷ subs) (p, q, r, h) =
          (omega arith, q, r, grown channels next subs h)

  subscribe_sized-IsSound :
      (id : String) (buffer : ℕ) (filters : List (E → Bool)) (m : Manager E)
      → IsSound m
      → IsSound (subscribe_sized id buffer filters m).0
  unfolding subscribe_sized
  subscribe_sized-IsSound id buffer filters m h = elim (Option-cases (lookup id m.subscriptions)) [
    | inr (s, q) ↦ rw q h
    | inl q ↦
        (let s : Subscription E = record { channel = m.next_channel; filters = filters } in
          let channels = set_channel m.next_channel (empty_channel buffer) m.channels in
          let new : (channels m.next_channel).is_closed ≡ false =
            rw ((==_iff m.next_channel m.next_channel).1 refl) refl in
          rw q (
            insert_wired id s channels m.next_channel m.subscriptions refl new (
              apart_wired m.next_channel m.next_channel (empty_channel buffer) m.channels
                m.subscriptions (IsWired-IsElsewhere m.channels m.next_channel m.subscriptions h)
                h)))
  ]

  unsubscribe-IsFine : (id : String) (m : Manager E) → IsSound m → IsFine (unsubscribe id m)
  unfolding unsubscribe
  unsubscribe-IsFine id m h = elim (Option-cases (lookup id m.subscriptions)) [
    | inl q ↦ (m, rw q refl, h)
    | inr (s, q) ↦
        (let c = record (m.channels s.channel) { is_closed = true } in
          let (o, h') = removed_wired id s c m.channels m.next_channel m.subscriptions h q in
          (
            record m {
              channels = set_channel s.channel c m.channels;
              subscriptions = remove id m.subscriptions;
            },
            rw (q, o) refl,
            h',
          ))
  ]

  publish-IsFine :
      (awaited : ℕ → Bool) (event : E) (m : Manager E)
      → IsSound m
      → IsFine (publish awaited event m)
  unfolding publish
  publish-IsFine awaited event m h =
      let (others, done, same) =
        publish_to_lem awaited event m.next_channel m.subscriptions m.channels h in
      (
        record m { channels = others },
        rw done refl,
        alike_wired m.channels others m.next_channel m.subscriptions same h,
      )

  receive-IsSound : (i : ℕ) (m : Manager E) → IsSound m → IsSound (receive i m).0
  unfolding receive
  receive-IsSound i m h =
      let c = m.channels i in
      alike_wired m.channels (set_channel i (take_from c.queue c).0 m.channels) m.next_channel
        m.subscriptions (set_channel-IsAlike i (take_from c.queue c).0 m.channels (taken c.queue c))
        h
    where
      taken : (events : List E) (c : Channel E) → (take_from events c).0.is_closed ≡ c.is_closed
      taken [] c = refl
      taken (event ∷ events) c = refl

  -- A call of `Subscribe` asks for a buffer that is not negative.
  abbrev pub IsSized : EventOp E → Type 0
  IsSized (subscribe_op id buffer filters) = pos 0 ≤ℤ buffer
  IsSized _ = Unit

  event_step-IsFine :
      (op : EventOp E) (m : Manager E) → IsSized op → IsSound m → IsFine (event_step op m)
  unfolding event_step wait_ends subscribe
  event_step-IsFine (publish_op awaited event) m z h = publish-IsFine awaited event m h
  event_step-IsFine (subscribe_op id (pos buffer) filters) m z h =
      (_, refl, subscribe_sized-IsSound id buffer filters m h)
  event_step-IsFine (subscribe_op id (negsuc n) filters) m z h = absurd (omega arith)
  event_step-IsFine (unsubscribe_op id) m z h = unsubscribe-IsFine id m h
  event_step-IsFine (receive_op i) m z h = (_, refl, receive-IsSound i m h)
  event_step-IsFine (wait_ends_op id i true) m z h =
      (let (m', q, k) = unsubscribe-IsFine id m h in (m', rw q refl, k))
  event_step-IsFine (wait_ends_op id i false) m z h =
      (let (m', q, k) = unsubscribe-IsFine id (receive i m).0 (receive-IsSound i m h) in
        (m', rw q refl, k))

  -- Whatever is subscribed with buffers that are not negative, unsubscribed, published, received and waited
  -- for, in any order, no call panics (sends to a closed channel or closes one twice), and every subscription has an open channel of its own.
  pub event_run-IsSound :
      (ops : List (EventOp E))
      → All IsSized ops
      → (m : Manager E) × (event_run ops new_manager ≡ some m) × IsSound m
  unfolding event_run new_manager
  event_run-IsSound ops z = from ops new_manager z tt
    where
      from :
          (ops : List (EventOp E)) (m : Manager E)
          → All IsSized ops
          → IsSound m
          → IsFine (event_run ops m)
      from [] m z h = (m, refl, h)
      from (op ∷ ops) m (z, zs) h =
          let (m', q, k) = event_step-IsFine op m z h in
          let (m'', r, l) = from ops m' zs k in (m'', rw q r, l)
