-- ===== src/Dialects.antt =====
-- cypherast/dialects: what stands between the surfaces of Cypher and its core.
pub mod Lower
