-- ===== src/Perimeter.antt =====
-- The HTTP perimeter: backend/security.py and backend/public_access.py.
pub mod Proxy
pub mod Admission
pub mod Visibility
pub mod Examples
