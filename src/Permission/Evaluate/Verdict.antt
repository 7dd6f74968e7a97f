-- ===== src/Permission/Evaluate/Verdict.antt =====
-- The verdict of a set of policies (EvaluatePolicies of go/permission/evaluate.go).
use mathlib.Core.List.{Perm, Permᴰ}
use mathlib.Core.Bool.{Bool-set}
use mathlib.Core.Logic.{∥∥₁_elim}
use metap.Prelude.{
  Bool, false, not, Option, List, [], ◌∷◌, ◌≡◌, refl, ◌∙◌, ap, ◌&&◌, ◌||◌, any, arith,
  if◌then◌else◌,
}
use metap.Json.{Json}
use metap.Permission.Context.{RequestContext}
use metap.Permission.Condition.{PolicyRow}
use metap.Permission.Evaluate.{
  PolicyVerdict, verdict_allow, verdict_deny, no_match, evaluate_policy_row, evaluate_from,
  evaluate_policies, is_deny,
}

-- Deny overrides allow, and no match is its own answer.
abbrev pub combine : Bool → Bool → PolicyVerdict
combine some_deny some_allow =
    if some_deny then verdict_deny else if some_allow then verdict_allow else no_match

any-Permᴰ : (p : PolicyRow → Bool) {ps qs : List PolicyRow} → Permᴰ ps qs → any p ps ≡ any p qs
any-Permᴰ p Permᴰ.nil = refl
any-Permᴰ p (Permᴰ.cons {l₁ = ps} {l₂ = qs} e r) = cc (e, any-Permᴰ p r)
any-Permᴰ p (Permᴰ.swap e f) = ground (arith, ap p e, ap p f)
any-Permᴰ p (Permᴰ.trans r t) = any-Permᴰ p r ∙ any-Permᴰ p t

any-Perm : (p : PolicyRow → Bool) {ps qs : List PolicyRow} → Perm ps qs → any p ps ≡ any p qs
any-Perm p r = ∥∥₁_elim r (Bool-set _ _) (any-Permᴰ p)

module _ (ctx : RequestContext) (s : Option Json) where
  -- The row matches and denies, or matches and allows.
  abbrev pub denies : PolicyRow → Bool
  denies p = evaluate_policy_row p ctx s && is_deny p.effect

  abbrev pub allows : PolicyRow → Bool
  allows p = evaluate_policy_row p ctx s && not (is_deny p.effect)

  evaluate_from_lem :
      (b : Bool) (ps : List PolicyRow)
      → evaluate_from b ps ctx s ≡ combine (any denies ps) (b || any allows ps)
  unfolding evaluate_from
  evaluate_from_lem b [] = ground arith
  evaluate_from_lem b (p ∷ ps) =
      ground (arith, evaluate_from_lem (evaluate_policy_row p ctx s || b) ps)

  -- The verdict is deny exactly when some matching row denies; else it is allow exactly when some
  -- matching row allows; else there is no match. No later row changes an earlier deny.
  pub evaluate_policies_lem :
      (ps : List PolicyRow) → evaluate_policies ps ctx s ≡ combine (any denies ps) (any allows ps)
  unfolding evaluate_policies
  evaluate_policies_lem ps = evaluate_from_lem false ps

  -- The verdict does not depend on the order in which the store returns the rows.
  pub evaluate_policies-Perm :
      {ps qs : List PolicyRow}
      → Perm ps qs
      → evaluate_policies ps ctx s ≡ evaluate_policies qs ctx s
  evaluate_policies-Perm {ps} {qs} r =
      rw (evaluate_policies_lem ps, evaluate_policies_lem qs, any-Perm denies r, any-Perm allows r)
