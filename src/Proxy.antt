-- ===== src/Proxy.antt =====
-- The front-ends of the proxy: src/proxy/ccfront.rs with its ccprotocol.rs and formatter.rs, and
-- src/proxy/dumbfront.rs.
pub mod CcProtocol
pub mod CcFront
pub mod CcLink
pub mod DumbFront
pub mod CyclesFormatter
pub mod Main
pub mod Targets
pub mod Driver
pub mod System
