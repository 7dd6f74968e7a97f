-- ===== src/Crud.antt =====
-- go/crud: validation of payloads and the operations on records.
pub mod Validation
pub mod Store
pub mod Tx
pub mod Commit
pub mod Rows
pub mod Fields
pub mod Inversions
pub mod Enrich
pub mod Call
pub mod References
pub mod Transition
pub mod Unique
pub mod Update
pub mod Delete
pub mod Create
pub mod SystemFields
