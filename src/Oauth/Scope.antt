-- ===== src/Oauth/Scope.antt =====
-- go/oauthserver/scope.go, and the merge of scopes in consent.go.
use Prim.Native.String.{◌++◌ as append}
use metap.Prelude.{Bool, true, List, [], ◌∷◌, ◌++◌, String, ◌&&◌, fields, mem_text, if◌then◌else◌}

unfoldable pub scope_tokens : String → List String
scope_tokens scope = fields scope

-- The loop over the requested tokens; the set of the allowed ones is read by membership.
unfoldable pub tokens_within : List String → List String → Bool
tokens_within allowed [] = true
tokens_within allowed (t ∷ ts) = mem_text t allowed && tokens_within allowed ts

unfoldable pub scope_is_subset : String → String → Bool
unfolding tokens_within scope_tokens
scope_is_subset requested allowed = tokens_within (scope_tokens allowed) (scope_tokens requested)

-- The loop of RecordConsent: a token that has not been seen is added at the end.
unfoldable pub merge_tokens : List String → List String → List String
merge_tokens tokens [] = tokens
merge_tokens tokens (t ∷ ts) =
    merge_tokens (if mem_text t tokens then tokens else tokens ++ t ∷ []) ts

-- strings.Join(tokens, " ")
unfoldable pub join_tokens : List String → String
join_tokens [] = ""
join_tokens (t ∷ []) = t
join_tokens (t ∷ u ∷ us) = append t (append " " (join_tokens (u ∷ us)))
