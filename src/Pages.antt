-- ===== src/Pages.antt =====
-- cmd/server/web/src/pages: each page as its state (the calls of `useState`), a step for each event
-- of its handlers and mutations, and the tree that it renders.
pub mod Deletion
pub mod Tunnels
pub mod Dashboard
pub mod TunnelDetail
pub mod Activity
pub mod ActivityDetail
pub mod Login
pub mod Layout
pub mod Cache
