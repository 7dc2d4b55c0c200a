-- ===== src/Workceptor/Commands.antt =====
-- The work commands of the control service (controlsvc.go): their parameters, and what they do.
pub mod Params
pub mod Parsing
pub mod Control
pub mod Examples
