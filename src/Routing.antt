-- ===== src/Routing.antt =====
-- src/routing: which renderer draws on which display, and which displays pause.
pub mod Table
pub mod Autopause
pub mod Router
