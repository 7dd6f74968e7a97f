-- ===== src/Metadata.antt =====
-- go/metadata: the definitions of entities.
pub mod Entity
pub mod Computed
