-- ===== src/Permission/Explain/Agreement.antt =====
-- The policy simulator against the verdict that it explains.
use metap.Prelude.{
  Bool, true, false, not, Option, none, List, [], ◌∷◌, ◌≡◌, refl, ◌∙◌, ◌&&◌, ◌||◌, any, arith,
}
use metap.Json.{Json}
use metap.Permission.Context.{RequestContext}
use metap.Permission.Condition.{PolicyRow}
use metap.Permission.Evaluate.{evaluate_policy_row, evaluate_policies, is_allowed}
use metap.Permission.Evaluate.Verdict.{denies, allows, evaluate_policies_lem}
use metap.Permission.Snapshot.{context_verdict}
use metap.Permission.Explain.{matched, trace_row, trace_rows, allowed_from, explain_policies}

module _ (ctx : RequestContext) (subject : Option Json) where
  -- An entry counts as matched exactly when its row does.
  matched-trace_row :
      (p : PolicyRow) → matched (trace_row p ctx subject) ≡ evaluate_policy_row p ctx subject
  unfolding matched trace_row evaluate_policy_row
  matched-trace_row p = ground arith

  effect-trace_row : (p : PolicyRow) → (trace_row p ctx subject).effect ≡ p.effect
  unfolding trace_row
  effect-trace_row p = ground arith

  allowed_from_lem :
      (ps : List PolicyRow) (d a : Bool)
      → allowed_from d a (trace_rows ps ctx subject)
        ≡ (not (d || any (denies ctx subject) ps) && (a || any (allows ctx subject) ps))
  unfolding allowed_from trace_rows
  allowed_from_lem [] d a = ground arith
  allowed_from_lem (p ∷ ps) d a =
      allowed_from_lem ps _ _ ∙ (rw (matched-trace_row p, effect-trace_row p) (ground arith))

  -- The explanation of at least one policy says allowed exactly when the verdict is allow. With no
  -- policies it says allowed, and the check of an entity action forbids.
  pub explain_policies_lem :
      (p : PolicyRow) (ps : List PolicyRow)
      → ((explain_policies (p ∷ ps) ctx subject).allowed
          ≡ is_allowed (evaluate_policies (p ∷ ps) ctx subject))
        × ((explain_policies [] ctx subject).allowed ≡ true)
        × ((context_verdict [] ctx).allowed ≡ false)
  unfolding explain_policies context_verdict
  explain_policies_lem p ps = (
    allowed_from_lem (p ∷ ps) false false
        ∙ ground (arith, evaluate_policies_lem ctx subject (p ∷ ps)),
    refl,
    ground (arith, evaluate_policies_lem ctx none []),
  )
