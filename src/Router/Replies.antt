-- ===== src/Router/Replies.antt =====
-- What a router publishes for a message (router/router.go, router/handler.go).
use cliffhanger.Prelude.{
  Bool, inl, inr, ◌&&◌, Bool-cases, ℕ, suc, ◌≤◌, ◌≡◌, refl, ap, ◌∙◌, ◌≢◌, true, false, Option, none,
  some, List, [], ◌∷◌, ◌++◌, arith, eq_iff, if◌then◌else◌, nat_eq, string_eq, length, length-append,
  All,
}
use cliffhanger.Prelude.Int.{int_eq}
use mathlib.Core.List.{append-nil}
use cliffhanger.Router.{Address, Payload, Message, Response, Fimp}
use cliffhanger.Router.Routes.{
  Config, Routing, vote, Effect, published, stats, panicked, response_address, correlate, respond,
  report_stats, after_handler, call_handler, process_message, route_message,
}

-- the addresses and payloads that are published
unfoldable pub publications : List Effect → List (Address × Payload)
publications [] = []
publications (published a p ∷ es) = (a, p) ∷ publications es
publications (stats r ∷ es) = publications es
publications (panicked ∷ es) = publications es

publications-append :
    (xs ys : List Effect) → publications (xs ++ ys) ≡ publications xs ++ publications ys
unfolding publications
publications-append [] ys = refl
publications-append (published a p ∷ xs) ys = ap (λ l. (a, p) ∷ l) (publications-append xs ys)
publications-append (stats r ∷ xs) ys = publications-append xs ys
publications-append (panicked ∷ xs) ys = publications-append xs ys

-- whether all voters accept the message
abbrev pub all_accept : Message → List (Message → Bool) → Bool
all_accept m [] = true
all_accept m (v ∷ vs) = v m && all_accept m vs

-- the number of routings whose voters all accept
unfoldable pub voting : Message → List Routing → ℕ
voting m [] = 0
voting m (r ∷ rs) = if all_accept m r.voters then suc (voting m rs) else voting m rs

vote-all_accept : (vs : List (Message → Bool)) (m : Message) → vote vs m ≡ all_accept m vs
unfolding vote
vote-all_accept [] m = refl
vote-all_accept (v ∷ vs) m = elim (Bool-cases (v m)) [
  | inl e ↦ rw e (vote-all_accept vs m)
  | inr e ↦ rw e refl
]

report_stats-none : (cfg : Config) (r : Option Response) → publications (report_stats cfg r) ≡ []
unfolding publications
report_stats-none cfg r = ground arith

module _ (fimp : Fimp) (cfg : Config) (m : Message) where
  respond-one : (r : Option Response) → length (publications (respond fimp cfg m r)) ≤ 1
  unfolding respond publications
  respond-one none = omega arith
  respond-one (some r) =
      elim (response_address fimp cfg m r)
        as (λ o.
          length (
            publications
              (elim o [ none ↦ [] | some a ↦ published a (correlate m r.reply_payload) ∷ [] ]))
          ≤ 1) [ none ↦ omega arith | some a ↦ omega arith ]

  after_handler-one :
      (r : Option (Option Response)) → length (publications (after_handler fimp cfg m r)) ≤ 1
  unfolding after_handler publications
  after_handler-one none = ground arith
  after_handler-one (some r) =
      let split = publications-append (respond fimp cfg m r) (report_stats cfg r) in
      omega (
        arith,
        respond-one r,
        ap length split,
        ap length (report_stats-none cfg r),
        length-append (publications (respond fimp cfg m r)) (publications (report_stats cfg r)),
      )

  call_handler-one :
      (h : Option (Message → Option (Option Response)))
      → length (publications (call_handler fimp cfg m h)) ≤ 1
  unfolding call_handler publications
  call_handler-one none = omega arith
  call_handler-one (some h) = after_handler-one (h m)

  process_message-one :
      (r : Routing)
      → length (publications (process_message fimp cfg r m)) ≤ (if vote r.voters m then 1 else 0)
  unfolding process_message publications
  process_message-one r = ground (arith, call_handler-one r.handler)

  -- To a message no more answers are published than there are routings of which every voter accepts it.
  pub route_message-bound :
      (rs : List Routing) → length (publications (route_message fimp cfg rs m)) ≤ voting m rs
  unfolding route_message voting publications
  route_message-bound [] = omega arith
  route_message-bound (r ∷ rs) =
      let here = process_message fimp cfg r m in
      let there = route_message fimp cfg rs m in
      ground (
        arith,
        process_message-one r,
        vote-all_accept r.voters m,
        route_message-bound rs,
        ap length (publications-append here there),
        length-append (publications here) (publications there),
      )

  -- the payload is one that the request can be told from
  abbrev pub IsCorrelated : Address × Payload → Type 0
  IsCorrelated (a, p) = p.correlation_id ≢ ""

  correlate-IsCorrelated : (p : Payload) → m.payload.uid ≢ "" → (correlate m p).correlation_id ≢ ""
  correlate-IsCorrelated p u = ground (arith, eq_iff p.correlation_id "")

  respond-IsCorrelated :
      (r : Option Response)
      → m.payload.uid ≢ ""
      → All IsCorrelated (publications (respond fimp cfg m r))
  unfolding respond publications
  respond-IsCorrelated none u = tt
  respond-IsCorrelated (some r) u =
      elim (response_address fimp cfg m r)
        as (λ o. All IsCorrelated (
          publications
            (elim o [ none ↦ [] | some a ↦ published a (correlate m r.reply_payload) ∷ [] ]))) [
              | none ↦ tt
              | some a ↦ (correlate-IsCorrelated r.reply_payload u, tt)
            ]

  publications-after_handler :
      (r : Option Response)
      → publications (after_handler fimp cfg m (some r)) ≡ publications (respond fimp cfg m r)
  unfolding after_handler
  publications-after_handler r =
      publications-append (respond fimp cfg m r) (report_stats cfg r)
      ∙ ap (λ l. publications (respond fimp cfg m r) ++ l) (report_stats-none cfg r)
      ∙ append-nil (publications (respond fimp cfg m r))

  after_handler-IsCorrelated :
      (r : Option (Option Response))
      → m.payload.uid ≢ ""
      → All IsCorrelated (publications (after_handler fimp cfg m r))
  unfolding after_handler publications
  after_handler-IsCorrelated none u =
      elim cfg.panic_callback
        as (λ b. All IsCorrelated (publications (if b then panicked ∷ [] else []))) [
          | true ↦ tt
          | false ↦ tt
        ]
  after_handler-IsCorrelated (some r) u =
      rw (publications-after_handler r) (respond-IsCorrelated r u)

  call_handler-IsCorrelated :
      (h : Option (Message → Option (Option Response)))
      → m.payload.uid ≢ ""
      → All IsCorrelated (publications (call_handler fimp cfg m h))
  unfolding call_handler publications
  call_handler-IsCorrelated none u = tt
  call_handler-IsCorrelated (some h) u = after_handler-IsCorrelated (h m) u

  -- When the request has a UID, everything that a routing publishes for it has a correlation identifier.
  pub process_message-IsCorrelated :
      (r : Routing)
      → m.payload.uid ≢ ""
      → All IsCorrelated (publications (process_message fimp cfg r m))
  unfolding process_message publications
  process_message-IsCorrelated r u =
      elim (vote r.voters m)
        as (λ b.
          All IsCorrelated (publications (if b then call_handler fimp cfg m r.handler else []))) [
            | true ↦ call_handler-IsCorrelated r.handler u
            | false ↦ tt
          ]
