-- ===== src/Router.antt =====
-- router/router.go, router/routing.go and router/handler.go: how an incoming message is given to the
-- routings, answered and published. Topics and addresses are parsed, and payloads are built, by the
-- package fimpgo: these are parameters. A reply that a handler gives is its own copy.
pub mod Routes
mod Exclusive
mod Replies
mod Answers
mod Options
mod Examples
use cliffhanger.Prelude.{
  String, Bool, true, false, Option, none, some, [], ◌∷◌, str_eq, if◌then◌else◌,
}
use cliffhanger.Prelude.Dict.{Dict}

-- the fields of fimpgo.Address that the source names
pub record Address : Type 0 where
  pub global_prefix : String
  pub payload_type : String
  pub msg_type : String
  pub resource_type : String
  pub resource_name : String
  pub resource_address : String
  pub service_name : String
  pub service_address : String

-- the fields of fimpgo.FimpMessage that the source names; `storage` tells whether there is a strategy
pub record Payload : Type 0 where
  pub service : String
  pub interface : String
  pub source : String
  pub properties : Dict String
  pub uid : String
  pub correlation_id : String
  pub response_to_topic : String
  pub storage : Option String

-- an incoming message, with its address
pub record Message : Type 0 where
  pub topic : String
  pub addr : Address
  pub payload : Payload

-- a response, whose address may be nil
pub record Response : Type 0 where
  pub reply_addr : Option Address
  pub reply_payload : Payload

-- What fimpgo does: `NewMessage`, of the interface, the service, the value (none for a null), the
-- properties and the request; `NewAddressFromString`; the texts of its constants.
pub record Fimp : Type 0 where
  pub new_message : String → String → Option String → Dict String → Payload → Payload
  pub address_from_string : String → Option Address
  pub msg_type_evt : String
  pub resource_type_device : String
  pub storage_strategy_skip : String

-- `messageHandler`, without its processor; `locking` tells whether it has a locker
pub record MessageHandler : Type 0 where
  pub default_address : Option Address
  pub silent_errors : Bool
  pub confirm_success : Bool
  pub locking : Bool

-- what `Process` returns
pub data Processed : Type 0 where
  failed : String → Processed
  replied : Option Payload → Processed

abbrev pub evt_error_report : String
evt_error_report = "evt.error.report"

abbrev pub evt_success_report : String
evt_success_report = "evt.success.report"

-- the properties of a report that name the request
abbrev pub request_properties : Message → Dict String
request_properties m =
    ("cmd_topic", m.topic)
    ∷ ("cmd_service", m.payload.service)
    ∷ ("cmd_type", m.payload.interface)
    ∷ []

abbrev pub address_or : Option Address → Address → Address
address_or none a = a
address_or (some d) a = d

module _ (fimp : Fimp) where
  -- `getResponseAddress` of a handler: a new address without a prefix
  unfoldable pub handler_address : MessageHandler → Address → Address
  handler_address h requested =
      let a = address_or h.default_address requested in
      record {
        global_prefix = "";
        payload_type = a.payload_type;
        msg_type = fimp.msg_type_evt;
        resource_type = a.resource_type;
        resource_name = a.resource_name;
        resource_address = a.resource_address;
        service_name = a.service_name;
        service_address = a.service_address;
      }

  -- device errors are not stored
  unfoldable pub skip_storage : Address → Payload → Payload
  skip_storage a p = elim p.storage [
    | some s ↦ p
    | none ↦
        (if str_eq a.resource_type fimp.resource_type_device
          then record p { storage = some fimp.storage_strategy_skip }
          else p)
  ]

  unfoldable pub handle_error : MessageHandler → Message → String → Option Response
  handle_error h m err =
      if h.silent_errors
      then none
      else let a = handler_address h m.addr in
        some (record {
          reply_addr = some a;
          reply_payload = skip_storage a (
              fimp.new_message evt_error_report m.payload.service
                (some "failed to process incoming message") (("msg", err) ∷ request_properties m)
                m.payload);
        })

  unfoldable pub handle_reply : MessageHandler → Message → Option Payload → Option Response
  handle_reply h m (some reply) =
      some (record { reply_addr = some (handler_address h m.addr); reply_payload = reply })
  handle_reply h m none =
      if h.confirm_success
      then some (record {
        reply_addr = some (handler_address h m.addr);
        reply_payload =
            fimp.new_message evt_success_report m.payload.service none (request_properties m)
              m.payload;
      })
      else none

  unfoldable pub handle_processed : MessageHandler → Message → Processed → Option Response
  unfolding handle_error handle_reply
  handle_processed h m (failed err) = handle_error h m err
  handle_processed h m (replied p) = handle_reply h m p

-- `Lock` of messageProcessorLocker: whether it succeeds, and the new state
unfoldable pub lock : Bool → Bool × Bool
lock is_locked = if is_locked then (false, true) else (true, true)

-- `Unlock`
unfoldable pub unlock : Bool → Bool
unlock is_locked = false

-- `Handle` up to the call of the processor: whether the processor is called, and the new lock
unfoldable pub enter : MessageHandler → Bool → Bool × Bool
unfolding lock
enter h is_locked = if h.locking then lock is_locked else (true, is_locked)

-- the deferred call of `Handle`, also after a panic
unfoldable pub leave : MessageHandler → Bool → Bool
unfolding unlock
leave h is_locked = if h.locking then unlock is_locked else is_locked

abbrev pub lock_error : String
lock_error = "another operation is already running, skipping message"

-- `Handle` when no other call runs meanwhile, with the lock after it
unfoldable pub handle :
    Fimp → MessageHandler → (Message → Processed) → Bool → Message → Option Response × Bool
unfolding enter leave handle_error handle_processed
handle fimp h processor is_locked m =
    let (entered, locked) = enter h is_locked in
    if entered
    then (handle_processed fimp h m (processor m), leave h locked)
    else (handle_error fimp h m lock_error, locked)
