-- ===== src/Lib.antt =====
-- metap: verification of the metadata-driven platform's core (go/).
--
-- metap stores the records of entities that metadata describes. A request carries a context
-- (tenant, user, roles, OAuth2 scope). The permission engine checks it against the policies of the
-- tenant, for a whole entity, for one record and for one field; the record store validates a
-- payload, runs the entity's workflow, and writes the record, its workflow event, its outbox event
-- and its audit entry. The OAuth2 server issues the tokens that carry a scope, and the query
-- language compiles the filter of a list into SQL.
--
-- Files:
--   Json: a JSON value (encoding/json), with Go's reading of null as every type's zero value.
--   Permission/Context: go/permission/context.go. Condition: the types of condition.go and
--     policystore.go. Resolve: resolve.go. Evaluate: evaluate.go. Snapshot: permissionsnapshot.go.
--     Codec: the JSON form of condition.go. Explain: policyexplainer.go. Service:
--     permissionservice.go, without its cache.
--   Control/PolicyStore: go/control/policystore.go, the policies table as a list of rows.
--   Metadata/Entity: go/metadata/entity.go. Metadata/Computed: go/metadata/computed.go.
--   Workflow: go/workflow/workflow.go. Audit: go/audit/diff.go and entry.go.
--   Crud/Validation: go/crud/validation.go. Crud/Store: the tables and the helpers of
--     go/crud/helpers.go and result.go. Crud/Rows: what an UPDATE leaves of a table. Crud/Unique:
--     uniqueViolation. Crud/Fields: rejectSystemFields and recomputeFields. Crud/SystemFields:
--     SetSystemFields. Crud/Enrich: crud_service.go. Crud/References: the reference guard of a delete.
--   Crud/Tx: the write transaction of a transition, its statements on its own tables, Rollback and
--     Commit. Crud/Call, Crud/Transition and Crud/Commit: go/crud/transition.go, where `prepare` is the
--     part up to the write transaction and `commit` is the rest. Crud/Update, Crud/Delete and Crud/Create: update.go,
--     delete.go and create.go in the same way.
--   Oauth/Db: the tables of migrations/0034_oauth2.sql and 0035_oauth2_consent.sql. Oauth/Scope, Codes,
--     Consents, Refresh, Clients and Cleanup: scope.go, code.go with pkce.go, consent.go, refresh.go,
--     client.go and cleanup.go of go/oauthserver. Oauth/History: these operations as steps on the
--     tables. Oauth/Grants: the token and revocation endpoints of go/httpserver/routes_oauth2.go.
--     Oauth/Authorize: the authorization endpoint and the consent decision of the same file.
--   Query/Params: go/query/sql_builder.go. Query/Jql/Syntax, Lexer, Parser and Codegen: jql_ast.go,
--     jql_lexer.go, jql_parser.go and jql_codegen.go of go/query. Query/Jql/Printer: a printer for
--     the parser's grammar, which the source does not have. Query/Conditions: condition_to_sql.go.
--   Cron/Runs: go/cron/run_lifecycle.go.
--   Prelude: tests, maps, texts and integers. Tests: the theorems at concrete inputs.
--
-- State and errors: a database is a record of lists of rows; an operation takes it and returns the
-- new one. The calls of the driver and the router that can fail are fields of a record (`Io`, and
-- `Env` for OAuth2), so that every branch on an error is there. A result is `done`, `refused` (a
-- ServiceResult with a status) or `failed` (an error of Go). The two transactions of a write read
-- and write two states, so another write may fall between them. In a transition
-- a Commit that returns an error may have been applied (`unconfirmed`) or not (`lost`); in an update, a
-- delete and a create, whose statements are not staged one by one, a transaction that is rolled back
-- or whose Commit returns an error is taken to leave the tables as they were. A history of the OAuth2
-- server is
-- any list of operations, in the order in which their transactions take effect; the clock, the random
-- texts and the generated identifiers come with each operation.
--
-- Numbers: a JSON number is an integer, its value scaled by 10000 (four decimals); a version is a
-- natural number without the bound of int32; a time is a number of seconds (of
-- nanoseconds in Cron/Runs, where a delay wraps around at 64 bits). A map of Go is an
-- association list whose order stands for the order of an iteration. Parameters: uuid.Parse, the text
-- of a JSON number, the text of a nested value in a computed field, HashToken (crypto/sha256), the S256 digest,
-- the decoding of encoding/base64, and the minting of a token.
--
-- Fuel: the batches of Oauth/Cleanup have one round more than the table has rows, and a round that is
-- not the last deletes a row. The lexer has one round more than the text has characters, and a round
-- takes one. The parser has six calls for each token and six more: a chain of six functions leads from
-- parseOr to a token. Every other loop is a recursion on a list, a text or a condition.
--
-- Foreign keys: replaced_by of oauth_refresh_tokens, which a batch of the cleanup can violate (an error
-- that ends it); the LIMIT of a batch takes the first rows of the list. The cleanup deletes no client,
-- so no other reference of these tables is at stake.
--
-- Not modelled: logging, the texts of failures in the record store, locks (FOR UPDATE, SKIP LOCKED),
-- and the parts that the manifest of this library lists as such (the query planner, the reconciler,
-- the schedulers, most of HTTP, gRPC).
mod Prelude
pub mod Json
pub mod Permission
pub mod Control
pub mod Metadata
pub mod Cron
pub mod Oauth
pub mod Query
pub mod Workflow
pub mod Audit
pub mod Crud
mod Tests
