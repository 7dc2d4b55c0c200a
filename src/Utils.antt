-- ===== src/Utils.antt =====
-- Helpers that the other packages stand on: requested runs of a task (pkg/tickrunner), and growing
-- timeouts and publication to subscribers (pkg/utils).
pub mod TickRunner
pub mod Backoff
pub mod Broker
