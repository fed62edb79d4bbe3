-- ===== src/Router/Answers.antt =====
-- The answers of a message handler, as the router publishes them (router/handler.go, router/router.go).
use cliffhanger.Prelude.{
  ◌&&◌, ◌⊎◌, inl, inr, Bool-cases, Option-cases, if◌then◌else◌, eq_iff, str_eq, String, ◌≡◌, refl,
  sym, ◌∙◌, ◌≢◌, Bool, true, false, Option, none, some, [], ◌∷◌, arith, nat_eq, string_eq,
}
use cliffhanger.Prelude.Int.{int_eq}
use mathlib.Core.Bool.{false≢true}
use cliffhanger.Router.{
  Address, Payload, Message, Response, Fimp, address_or, skip_storage, MessageHandler, Processed,
  failed, replied, handler_address, handle_error, handle_reply, handle_processed, handle, enter,
  leave, lock, unlock, lock_error,
}
use cliffhanger.Router.Routes.{Config, with_prefix, response_address, correlate, respond}
use cliffhanger.Router.Replies.{publications}

module _ (fimp : Fimp) (cfg : Config) (h : MessageHandler) (processor : Message → Processed) where
  -- A call of the handler leaves its lock as it was, whether the message was processed, failed or refused.
  pub handle-lock :
      (is_locked : Bool) (m : Message)
      → (h.locking ≡ false → is_locked ≡ false)
      → (handle fimp h processor is_locked m).1 ≡ is_locked
  unfolding handle enter leave lock unlock
  handle-lock is_locked m w = ground arith

  -- the address of which the answer's is made
  abbrev pub base : Message → Address
  base m = elim h.default_address [ none ↦ m.addr | some d ↦ d ]

  -- a report of the error that names the request; that of a device is not stored, unless it says so
  abbrev pub made : Message → String → Payload
  made m err =
      fimp.new_message "evt.error.report" m.payload.service
        (some "failed to process incoming message")
        (("msg", err)
          ∷ ("cmd_topic", m.topic)
          ∷ ("cmd_service", m.payload.service)
          ∷ ("cmd_type", m.payload.interface)
          ∷ [])
        m.payload

  abbrev pub IsErrorReport : Message → String → Payload → Type 0
  IsErrorReport m err q =
      ((q ≡ made m err)
        × (((made m err).storage ≢ none) ⊎ ((base m).resource_type ≢ fimp.resource_type_device)))
      ⊎ ((q ≡ record (made m err) { storage = some fimp.storage_strategy_skip })
          × ((made m err).storage ≡ none)
          × ((base m).resource_type ≡ fimp.resource_type_device))

  -- what is answered: an error where the lock is taken or the processor fails, else its reply or a report
  -- of success
  abbrev pub IsContent : Message → Bool → Processed → Payload → Type 0
  IsContent m true p q = IsErrorReport m "another operation is already running, skipping message" q
  IsContent m false (failed err) q = IsErrorReport m err q
  IsContent m false (replied (some reply)) q = q ≡ reply
  IsContent m false (replied none) q =
      q
      ≡ fimp.new_message "evt.success.report" m.payload.service none
          (("cmd_topic", m.topic)
            ∷ ("cmd_service", m.payload.service)
            ∷ ("cmd_type", m.payload.interface)
            ∷ [])
          m.payload

  -- the payload that is published: it keeps its correlation, or gets the UID of the request
  abbrev pub IsCorrelatedWith : Message → Payload → Payload → Type 0
  IsCorrelatedWith m q p =
      ((q.correlation_id ≢ "") × (p ≡ q))
      ⊎ ((q.correlation_id ≡ "") × (p ≡ record q { correlation_id = m.payload.uid }))

  -- an event from the handler's address, with the hub's prefix where that is kept
  abbrev pub event_address : Message → Address
  event_address m = record {
    global_prefix = if cfg.preserve_global_prefix then m.addr.global_prefix else "";
    payload_type = (base m).payload_type;
    msg_type = fimp.msg_type_evt;
    resource_type = (base m).resource_type;
    resource_name = (base m).resource_name;
    resource_address = (base m).resource_address;
    service_name = (base m).service_name;
    service_address = (base m).service_address;
  }

  base-address_or : (m : Message) → address_or h.default_address m.addr ≡ base m
  base-address_or m = elim (Option-cases h.default_address) [
    | inl e ↦ rw e refl
    | inr (d, e) ↦ rw e refl
  ]

  prefixed : (m : Message) → with_prefix cfg m (handler_address fimp h m.addr) ≡ event_address m
  unfolding handler_address
  prefixed m =
      rw (base-address_or m)
        (elim (Bool-cases cfg.preserve_global_prefix) [ inl e ↦ rw e refl | inr e ↦ rw e refl ])

  skip_storage-IsErrorReport :
      (m : Message) (err : String)
      → IsErrorReport m err (skip_storage fimp (handler_address fimp h m.addr) (made m err))
  unfolding skip_storage handler_address
  skip_storage-IsErrorReport m err = elim (Option-cases (made m err).storage) [
    | inr (t, e) ↦ inl (rw (skip_storage, e) refl, inl (λ n. cc))
    | inl e ↦
        rw (base-address_or m)
          (elim (Bool-cases (str_eq (base m).resource_type fimp.resource_type_device)) [
            | inl d ↦ inr (rw (skip_storage, e, d) refl, e, (eq_iff _ _).0 d)
            | inr d ↦
                inl (rw (skip_storage, e, d) refl, inr (λ n. false≢true (sym d ∙ (eq_iff _ _).1 n)))
          ])
  ]

  -- what the handler answers
  IsAnswer : Message → (Payload → Type 0) → Option Response → Type 0
  IsAnswer m P r =
      (q : Payload) × P q
      × (r ≡ some (record { reply_addr = some (handler_address fimp h m.addr); reply_payload = q }))

  handle_error-IsAnswer :
      (m : Message) (err : String)
      → h.silent_errors ≡ false
      → IsAnswer m (IsErrorReport m err) (handle_error fimp h m err)
  unfolding handle_error IsAnswer
  handle_error-IsAnswer m err s = (_, skip_storage-IsErrorReport m err, rw s refl)

  handle_processed-IsAnswer :
      (m : Message) (p : Processed)
      → h.silent_errors ≡ false
      → h.confirm_success ≡ true
      → IsAnswer m (IsContent m false p) (handle_processed fimp h m p)
  unfolding handle_processed handle_reply IsAnswer
  handle_processed-IsAnswer m (failed err) s c = handle_error-IsAnswer m err s
  handle_processed-IsAnswer m (replied none) s c = (_, refl, rw c refl)
  handle_processed-IsAnswer m (replied (some p)) s c = (p, refl, refl)

  handle-IsAnswer :
      (is_locked : Bool) (m : Message)
      → h.silent_errors ≡ false
      → h.confirm_success ≡ true
      → IsAnswer m
          (IsContent m (h.locking && is_locked) (processor m))
          (handle fimp h processor is_locked m).0
  unfolding handle enter lock handler_address IsAnswer
  handle-IsAnswer is_locked m s c = elim (Bool-cases h.locking) [
    | inr e ↦ rw e (handle_processed-IsAnswer m (processor m) s c)
    | inl e ↦ elim (Bool-cases is_locked) [
      | inl l ↦ rw (e, l) (handle_error-IsAnswer m lock_error s)
      | inr l ↦ rw (e, l) (handle_processed-IsAnswer m (processor m) s c)
    ]
  ]

  correlate-IsCorrelatedWith : (m : Message) (q : Payload) → IsCorrelatedWith m q (correlate m q)
  correlate-IsCorrelatedWith m q = elim (Bool-cases (str_eq q.correlation_id "")) [
    | inl e ↦ inr ((eq_iff _ _).0 e, rw e refl)
    | inr e ↦ inl (λ n. false≢true (sym e ∙ (eq_iff _ _).1 n), rw e refl)
  ]

  -- A handler that neither hides errors nor keeps silent on success answers every request that names no
  -- topic for the response with exactly one message, whether the request is processed, fails or finds the
  -- lock taken. It is an event from the handler's default address or else the request's, it holds the reply,
  -- the success or the error, and where that has no correlation of its own it has the UID of the request.
  pub handle-one_answer :
      (is_locked : Bool) (m : Message)
      → h.silent_errors ≡ false
      → h.confirm_success ≡ true
      → m.payload.response_to_topic ≡ ""
      → (q : Payload) × (p : Payload) × IsContent m (h.locking && is_locked) (processor m) q
        × IsCorrelatedWith m q p
        × (publications (respond fimp cfg m (handle fimp h processor is_locked m).0)
            ≡ (event_address m, p) ∷ [])
  unfolding respond response_address publications IsAnswer
  handle-one_answer is_locked m s c t =
      let (q, content, answer) = handle-IsAnswer is_locked m s c in
      (q, correlate m q, content, correlate-IsCorrelatedWith m q, rw (answer, t, prefixed m) refl)
