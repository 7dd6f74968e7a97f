-- ===== src/Audit.antt =====
-- go/audit: the diff of two versions of a record's data (diff.go) and its redaction (entry.go). The
-- time of an entry is left out.
pub mod Laws
use metap.Prelude.{
  ℕ, Bool, true, false, Option, none, some, List, [], ◌∷◌, ◌++◌, String, ◌&&◌, lookup, insert, keys,
  mem_text, if◌then◌else◌,
}
use metap.Json.{Json, null, bool, JsonObject, object, json_equal}

abbrev or_null : Option Json → Json
or_null none = null
or_null (some v) = v

-- The key differs between the two sides.
unfoldable pub changed : Option Json → Option Json → Bool
changed none none = false
changed (some b) none = true
changed none (some a) = true
changed (some b) (some a) = if json_equal b a then false else true

abbrev pub diff_entry : Option Json → Option Json → Json
diff_entry b a = object (("before", or_null b) ∷ ("after", or_null a) ∷ [])

-- The keys of both sides, each once.
unfoldable pub seen_keys : List String → List String → List String
seen_keys [] seen = seen
seen_keys (k ∷ ks) seen = seen_keys ks (if mem_text k seen then seen else seen ++ k ∷ [])

unfoldable pub diff_keys : List String → JsonObject → JsonObject → JsonObject
unfolding changed
diff_keys [] before after = []
diff_keys (k ∷ ks) before after =
    let rest = diff_keys ks before after in
    let b = lookup k before in
    let a = lookup k after in if changed b a then (k, diff_entry b a) ∷ rest else rest

unfoldable pub diff_json_objects : JsonObject → JsonObject → JsonObject
unfolding seen_keys diff_keys
diff_json_objects before after = diff_keys (seen_keys (keys before ++ keys after) []) before after

abbrev pub redacted_marker : Json
redacted_marker = object (("redacted", bool true) ∷ [])

abbrev redact_one : String → Option Json → JsonObject → JsonObject
redact_one f none diff = diff
redact_one f (some _) diff = insert f redacted_marker diff

unfoldable pub redact_diff_fields : JsonObject → List String → JsonObject
redact_diff_fields diff [] = diff
redact_diff_fields diff (f ∷ fs) = redact_diff_fields (redact_one f (lookup f diff) diff) fs

pub data AuditAction : Type 0 where
  create update delete transition : AuditAction

pub record Entry : Type 0 where
  pub tenant_id : String
  pub entity : String
  pub record_id : String
  pub action : AuditAction
  pub transition_action : Option String
  pub actor_user_id : Option String
  pub reason : Option String
  pub diff : JsonObject
  pub version_after : Option ℕ
