-- ===== src/Device.antt =====
-- adapter/service: what the services of devices share. Each of their methods that send a report reads a
-- value from the controller of the device, asks the reporting cache whether a report is due, sends a
-- message and notes the report. The lock of a service is held meanwhile, so that each call is one step.
pub mod Report
pub mod Chargepoint
