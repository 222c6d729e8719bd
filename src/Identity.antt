-- ===== src/Identity.antt =====
-- backend/identity.py: who a request comes from, and which tenant it acts in.
pub mod Request
pub mod Resolve
pub mod Admission
pub mod Examples
