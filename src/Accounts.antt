-- ===== src/Accounts.antt =====
-- The accounts: internal/auth.
pub mod BackupCodes
pub mod Subdomains
pub mod Domains
pub mod Rows
pub mod Service
pub mod OneTime
pub mod Tokens
