-- ===== src/Dma.antt =====
-- src/dma: how two peers agree on a buffer format.
pub mod Negotiate
