-- ===== src/Credentials.antt =====
-- credentials.py: the chain of providers, refreshing, and fetching with retries.
pub mod Keys
pub mod Chain
pub mod Refresh
pub mod Refreshable
pub mod Providers
pub mod Metadata
pub mod Fetch
