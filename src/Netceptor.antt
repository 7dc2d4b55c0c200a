-- ===== src/Netceptor.antt =====
-- pkg/netceptor: the node of the mesh network.
pub mod State
pub mod Examples
pub mod Firewall
pub mod Wire
pub mod Handle
pub mod Routing
pub mod Update
pub mod Ads
pub mod Connection
pub mod Session
pub mod Aging
pub mod Listener
