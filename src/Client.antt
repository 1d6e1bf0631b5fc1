-- ===== src/Client.antt =====
-- client.py: sending requests, following pages, and the payloads of the operations.
pub mod Request
pub mod Pagination
pub mod Payloads
pub mod Streams
pub mod Responses
pub mod Tables
pub mod TimeToLive
pub mod Table
