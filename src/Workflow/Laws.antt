-- ===== src/Workflow/Laws.antt =====
-- What finding a transition and setting its fields promise.
use metap.Prelude.{
  false, some, List, [], ◌∷◌, String, ◌≡◌, refl, ◌∙◌, eq_iff, lookup, lookup-insert, Assoc,
  mem_text, keys, arith,
}
use metap.Json.{JsonObject}
use metap.Metadata.Entity.{WorkflowTransition}
use metap.Permission.Context.{RequestContext}
use metap.Permission.Condition.{PolicyValue}
use metap.Workflow.{first_transition, set_each, apply_set_fields}

first_transition_lem :
    (action source : String) (ts : List WorkflowTransition) (t : WorkflowTransition)
    → first_transition action source ts ≡ some t
    → (t.action ≡ action) × (t.source ≡ source)
unfolding first_transition
first_transition_lem action source [] t h = cc
first_transition_lem action source (u ∷ us) t h =
    ground (
      arith,
      first_transition_lem action source us t,
      eq_iff u.action action,
      eq_iff u.source source,
    )

set_each_other :
    (fs : Assoc PolicyValue) (data_ : JsonObject) (ctx : RequestContext) (k : String)
    → mem_text k (keys fs) ≡ false
    → lookup k (set_each fs data_ ctx) ≡ lookup k data_
unfolding set_each
set_each_other [] data_ ctx k h = refl
set_each_other ((j, v) ∷ fs) data_ ctx k h =
    set_each_other fs _ ctx k (ground arith) ∙ (rw lookup-insert (ground arith))

-- Setting the fields of a transition leaves every other field of the record as it was.
pub apply_set_fields_other :
    (t : WorkflowTransition) (data_ : JsonObject) (ctx : RequestContext) (k : String)
    → mem_text k (keys t.set_fields) ≡ false
    → lookup k (apply_set_fields t data_ ctx) ≡ lookup k data_
unfolding apply_set_fields
apply_set_fields_other t data_ ctx k h = set_each_other t.set_fields data_ ctx k h
