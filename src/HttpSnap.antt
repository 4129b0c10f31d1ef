-- ===== src/HttpSnap.antt =====
-- The HTTP snap, httpsnap/cmd: its configuration, its cache of private keys, the TLS configuration of a
-- request, the service that validates a request and sends it, and the chaincode's entry point.
pub mod Outcome
pub mod Config
pub mod Platform
pub mod KeyCache
pub mod Certificates
pub mod Tls
pub mod Service
pub mod Invocation
pub mod Setup
pub mod Chaincode
