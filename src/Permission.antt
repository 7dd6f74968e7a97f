-- ===== src/Permission.antt =====
-- go/permission: conditions, the request context, policies and their verdict, the snapshot and the
-- service. One child for each file of the package.
pub mod Context
pub mod Condition
pub mod Resolve
pub mod Evaluate
pub mod Snapshot
pub mod Codec
pub mod Explain
pub mod Service
