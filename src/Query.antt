-- ===== src/Query.antt =====
-- go/query: the query language JQL, and the conditions of policies as SQL.
pub mod Params
pub mod Jql
pub mod Conditions
