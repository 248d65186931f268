-- ===== src/Bridge.antt =====
-- bridge/ttx_bridge.py: the reconcile loop between the 3x-ui panel and the TrustTunnel endpoint.
pub mod Json
pub mod Panel
pub mod Ingress
pub mod Files
pub mod Apply
pub mod Render
pub mod Versions
pub mod Command
pub mod Settings
