-- ===== src/Audit/Laws.antt =====
-- What the diff of an audit entry holds.
use metap.Prelude.{
  true, Option, ◌⊎◌, inl, inr, Bool-cases, false, none, some, List, [], ◌∷◌, ◌++◌, String, ◌≡◌,
  refl, ◌∙◌, ◌||◌, eq_iff, lookup, keys, mem_text, arith, if◌then◌else◌,
}
use metap.Json.{Json, null, object, json_equal, JsonObject}
use metap.Audit.{changed, diff_entry, seen_keys, diff_keys, diff_json_objects}

mem_text-append :
    (k : String) (xs ys : List String) → mem_text k (xs ++ ys) ≡ (mem_text k xs || mem_text k ys)
mem_text-append k [] ys = refl
mem_text-append k (x ∷ xs) ys = ground (arith, mem_text-append k xs ys)

seen_keys_lem :
    (k : String) (ks seen : List String)
    → mem_text k (seen_keys ks seen) ≡ (mem_text k seen || mem_text k ks)
unfolding seen_keys
seen_keys_lem k [] seen = ground arith
seen_keys_lem k (j ∷ ks) seen =
    seen_keys_lem k ks _ ∙ ground (arith, mem_text-append k seen (j ∷ []), eq_iff j k)

diff_keys_lem :
    (k : String) (ks : List String) (before after : JsonObject)
    → lookup k (diff_keys ks before after) ≡ (
        if mem_text k ks
        then (if changed (lookup k before) (lookup k after)
            then some (diff_entry (lookup k before) (lookup k after))
            else none)
        else none)
unfolding diff_keys lookup
diff_keys_lem k [] before after = refl
diff_keys_lem k (j ∷ ks) before after = ground (arith, diff_keys_lem k ks before after, eq_iff j k)

missing_key : (k : String) (m : JsonObject) → mem_text k (keys m) ≡ false → lookup k m ≡ none
unfolding lookup
missing_key k [] h = refl
missing_key k ((j, v) ∷ m) h = ground (arith, missing_key k m)

-- What a diff holds under a key, by what stands before and after: nothing if no side has the key or
-- both have equal documents, else both sides by name, null for a side that lacks the key.
abbrev pub Expected : Option Json → Option Json → Option Json → Type 0
Expected none none d = d ≡ none
Expected (some b) none d = d ≡ some (object (("before", b) ∷ ("after", null) ∷ []))
Expected none (some a) d = d ≡ some (object (("before", null) ∷ ("after", a) ∷ []))
Expected (some b) (some a) d =
    ((json_equal b a ≡ true) × (d ≡ none))
    ⊎ ((json_equal b a ≡ false) × (d ≡ some (object (("before", b) ∷ ("after", a) ∷ []))))

entry-Expected :
    (b a d : Option Json)
    → d ≡ (if changed b a then some (diff_entry b a) else none)
    → Expected b a d
unfolding changed
entry-Expected none none d h = h
entry-Expected (some b) none d h = h
entry-Expected none (some a) d h = h
entry-Expected (some b) (some a) d h = elim (Bool-cases (json_equal b a)) [
  | inl same ↦ inl (same, ground (arith, same))
  | inr differs ↦ inr (differs, ground (arith, differs))
]

-- The diff of two versions holds a key that only the old one has with its value before and null
-- after, a key that only the new one has with null before and its value after, and a key of both with
-- both values if the documents differ; it holds no other key.
pub diff_json_objects_lem :
    (k : String) (before after : JsonObject)
    → Expected (lookup k before) (lookup k after) (lookup k (diff_json_objects before after))
unfolding diff_json_objects changed
diff_json_objects_lem k before after = entry-Expected (lookup k before) (lookup k after) _ (
    diff_keys_lem k (seen_keys (keys before ++ keys after) []) before after
    ∙ ground (
      arith,
      seen_keys_lem k (keys before ++ keys after) [],
      mem_text-append k (keys before) (keys after),
      missing_key k before,
      missing_key k after,
    ))
