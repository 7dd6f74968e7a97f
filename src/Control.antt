-- ===== src/Control.antt =====
-- go/control: the stores that the engine reaches through the tenant router.
pub mod PolicyStore
