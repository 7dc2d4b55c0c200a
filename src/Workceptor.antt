-- ===== src/Workceptor.antt =====
-- Units of work (pkg/workceptor): their status files, the kinds of units, the table of active units,
-- and the control commands.
pub mod State
pub mod Status
pub mod Command
pub mod Results
pub mod Table
pub mod Remote
pub mod Signature
pub mod Commands
pub mod Examples
