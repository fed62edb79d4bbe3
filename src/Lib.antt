-- ===== src/Lib.antt =====
-- A model of cliffhanger, a framework for applications and edge adapters of a smart-home hub, in Go.
--
-- An application is built of parts that other parts call: a message router hands incoming messages to
-- handlers; the adapter keeps the state of its things and gives them addresses; the services of a thing
-- check what they are asked and send reports, which caches limit; the lifecycle keeps the states of the
-- application and tells subscribers of changes; an observer keeps a copy of what the hub knows; the
-- storage keeps models in files.
--
-- The files, and the code they are about:
--   Prelude      shared names, signed integers over the native numbers, Go's maps and times
--   Lifecycle    lifecycle/lifecycle.go: `set_app_health` is SetAppHealth and so on; a method that panics
--                is `none`; channels stand in a store, and the bus holds their places
--   Observer     prime/observer and the notifications of prime/model.go: Items is the code that the
--                four kinds of set.go share, Set is set.go, Notify the notification, Update observer.go
--   Storage      storage/storage.go over three files that may be cut by an interruption; what is shown of
--                starts is for storages without defaults
--   Adapter      State is adapter/state.go: the things, their proxies, the addresses and the lock;
--                Registry is adapter/adapter.go and the inclusion report of adapter/thing.go
--   Cache        Reporter and Refresher are adapter/cache/reporter.go and refresher.go
--   Backoff      backoff/backoff.go and backoff/stateful.go
--   Router       router/handler.go; its child Routes is router/router.go and router/routing.go
--   Parameters   adapter/service/parameters/model.go; its children Service and Reports are SetParameter
--                and the reports of service.go
--   Device       adapter/service/chargepoint: Report is what its methods that send reports have in
--                common, Chargepoint the setters of service.go, with its children Reports (service.go,
--                model.go, tasks.go) and Routing (routing.go)
--   VirtualMeter adapter/service/virtualmeter/storage.go and, in the child Manager, manager.go
--   Telemetry    telemetry/telemetry.go: the window in which telemetry is enabled; its child Emit is
--                what is published
--   Config       config/default.go, with the types of telemetry/types/types.go; what a save that fails
--                leaves in the file is left to Storage
--   Events       event/manager.go and the subscriptions of event/listener.go
--   Ota          adapter/service/ota/model.go and the reports of service.go
--   Phases       utils/phases.go and types/types.go
-- A part's operations stand in the file of that name, what is shown of them in its children, and
-- concrete instances and tests in its child Examples.
--
-- Conventions. The clock, the controller, the client of the hub and the faults of the file system are
-- arguments of the operations that use them, as are the answers of databases and of the things of an
-- adapter, and whether the transport takes a message. Timers and channels are places in a store.
-- Instants are nanoseconds since the zero time. A buffer that is asked for may be negative. A method that
-- holds a lock from start to end is one step; where another caller can come in between, the step is cut
-- there (WaitFor, handlers with a lock). Counters of 32 bits wrap around; ints of 64 bits are unbounded
-- integers, but for the conversion of unsigned values in Parameters. All loops of the code that are
-- modelled run over lists, so that no fuel is needed.
--
-- Parameters of the model are JSON (encoding/json), reflect.DeepEqual, the messages and addresses of
-- fimpgo, the case and the formats of texts (strings, strconv), and floating point.
--
-- Not modelled are tasks, the connectivity and the routing of the adapter, the services of other devices, the
-- registration of virtual meters on things, the goroutines of listeners and the polling of the cloud by
-- the telemetry; logging; and what only reads the machine or wires parts.
pub mod Prelude
pub mod Backoff
pub mod Cache
pub mod Observer
pub mod Storage
pub mod Lifecycle
pub mod Adapter
pub mod Phases
pub mod Router
pub mod Parameters
pub mod Ota
pub mod Device
pub mod VirtualMeter
pub mod Telemetry
pub mod Config
pub mod Events
