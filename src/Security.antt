-- ===== src/Security.antt =====
-- backend/lightrag_integration/security.py: signed internal requests and the fence against replays.
pub mod Errors
pub mod Nonce
pub mod Signing
pub mod Fence
pub mod Acceptance
pub mod RoundTrip
pub mod Examples
