-- ===== src/Client.antt =====
-- The client of a tunnel (internal/client).
pub mod Requests
pub mod Update
