-- ===== src/Accounts.antt =====
-- backend/storage/account_repository.py: accounts, tenants, usage and audit over SQL tables.
pub mod Tables
pub mod Repository
pub mod Exports
pub mod Erasure
pub mod Usage
pub mod Claim
pub mod Deletion
pub mod Totals
pub mod Examples
