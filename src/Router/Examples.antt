-- ===== src/Router/Examples.antt =====
-- Instances of the laws of the router.
use cliffhanger.Prelude.{
  ◌≤◌, ◌≡◌, refl, ◌≢◌, true, false, none, some, List, [], ◌∷◌, str_eq, eq_iff, nat_eq, string_eq,
  length,
}
use cliffhanger.Prelude.Int.{pos, negsuc, int_eq}
use mathlib.Core.Bool.{false≢true}
use cliffhanger.Router.{Address, Payload, Message, Fimp, MessageHandler, Processed, failed, handle}
use cliffhanger.Router.Routes.{
  default_config, Routing, respond, route_message, with_async_processing, with_message_buffer,
  new_router,
}
use cliffhanger.Router.Exclusive.{arrives, returns, calls, no_calls, IsExclusive, calls-IsExclusive}
use cliffhanger.Router.Replies.{publications, voting, route_message-bound}
use cliffhanger.Router.Answers.{IsContent, IsCorrelatedWith, event_address, handle-one_answer}
use cliffhanger.Router.Options.{
  RouterOp, configure, starting, stopping, operate, IsRunning, operate-IsRunning,
}

-- fimpgo by a concrete instance: no topic parses, and a message is built with no correlation
abbrev fimp : Fimp
fimp = record {
  new_message = λ i s v ps req. record {
    service = s;
    interface = i;
    source = "";
    properties = ps;
    uid = "r";
    correlation_id = "";
    response_to_topic = "";
    storage = none;
  };
  address_from_string = λ t. none;
  msg_type_evt = "evt";
  resource_type_device = "dev";
  storage_strategy_skip = "skip";
}

abbrev device : Address
device = record {
  global_prefix = "home";
  payload_type = "j1";
  msg_type = "cmd";
  resource_type = "dev";
  resource_name = "zw";
  resource_address = "1";
  service_name = "meter";
  service_address = "2";
}

abbrev request : Message
request = record {
  topic = "t";
  addr = device;
  payload = record {
    service = "meter";
    interface = "cmd.meter.get";
    source = "";
    properties = [];
    uid = "q";
    correlation_id = "";
    response_to_topic = "";
    storage = none;
  };
}

abbrev careful : MessageHandler
careful = record {
  default_address = none;
  silent_errors = false;
  confirm_success = true;
  locking = true;
}

abbrev fails : Message → Processed
fails m = failed "no such meter"

abbrev meter : Routing
meter = record {
  voters = (λ m. str_eq m.payload.service "meter") ∷ [];
  handler = some (λ m. some (handle fimp careful fails false m).0);
}

abbrev thermostat : Routing
thermostat = record {
  voters = (λ m. str_eq m.payload.service "thermostat") ∷ [];
  handler = some (λ m. none);
}

refused : (calls careful (arrives ∷ arrives ∷ []) no_calls).running ≡ 1
unfolding calls
refused = refl

calls-IsExclusive_example : IsExclusive (calls careful (arrives ∷ arrives ∷ returns ∷ []) no_calls)
calls-IsExclusive_example = calls-IsExclusive careful (arrives ∷ arrives ∷ returns ∷ []) refl

route_message-bound_example :
    length (publications (route_message fimp default_config (meter ∷ thermostat ∷ []) request))
    ≤ voting request (meter ∷ thermostat ∷ [])
route_message-bound_example =
    route_message-bound fimp default_config request (meter ∷ thermostat ∷ [])

has_uid : request.payload.uid ≢ ""
has_uid e = false≢true ((eq_iff "q" "").1 e)

handle-one_answer_example :
    (q : Payload) × (p : Payload) × IsContent fimp default_config careful fails request true
      (fails request)
      q
    × IsCorrelatedWith fimp default_config careful fails request q p
    × (publications (respond fimp default_config request (handle fimp careful fails true request).0)
        ≡ (event_address fimp default_config careful fails request, p) ∷ [])
handle-one_answer_example =
    handle-one_answer fimp default_config careful fails true request refl refl refl

abbrev ops : List RouterOp
ops =
    configure (with_async_processing (pos 1) ∷ with_message_buffer (negsuc 0) ∷ [])
    ∷ starting
    ∷ starting
    ∷ stopping
    ∷ []

operate-IsRunning_example : IsRunning (operate ops new_router)
operate-IsRunning_example = operate-IsRunning ops
