-- ===== src/Tests.antt =====
-- Runs of the models at concrete inputs, and the theorems applied to concrete inputs.
mod Encoding
mod Debug
mod Requests
mod Storage
mod Storing
mod Payloads
mod Tables
mod Pages
mod Prefetch
mod Credentials
