-- ===== src/Query/Jql.antt =====
-- The query language JQL of go/query.
pub mod Syntax
pub mod Lexer
pub mod Parser
pub mod Printer
pub mod Codegen
pub mod Whole
