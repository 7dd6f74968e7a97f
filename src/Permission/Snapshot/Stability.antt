-- ===== src/Permission/Snapshot/Stability.antt =====
-- When a verdict cannot change from one record to another (verdictIsRecordDependent of
-- go/permission/permissionsnapshot.go).
use metap.Prelude.{
  Bool, true, false, not, some, List, [], ◌∷◌, ◌≡◌, refl, ◌∙◌, ◌&&◌, ◌||◌, any, arith,
}
use metap.Json.{Json}
use metap.Permission.Context.{RequestContext}
use metap.Permission.Condition.{PolicyRow}
use metap.Permission.Evaluate.{evaluate_policy_row, evaluate_policies, is_deny}
use metap.Permission.Evaluate.Verdict.{evaluate_policies_lem}
use metap.Permission.Snapshot.{
  MatchStability, always, never, record_dependent, match_stability_of, Flags, no_flags, flags_from,
  verdict_is_record_dependent, raise,
}

abbrev is_always : MatchStability → Bool
is_always always = true
is_always _ = false

abbrev is_steerable : MatchStability → Bool
is_steerable record_dependent = true
is_steerable _ = false

module _ (ctx : RequestContext) where
  -- The rows that match any record, and those that a record can steer, with one effect.
  abbrev fixed : (PolicyRow → Bool) → PolicyRow → Bool
  fixed effect p = is_always (match_stability_of p ctx) && effect p

  abbrev steered : (PolicyRow → Bool) → PolicyRow → Bool
  steered effect p = is_steerable (match_stability_of p ctx) && effect p

  row-always :
      (p : PolicyRow) (r : Json)
      → match_stability_of p ctx ≡ always
      → evaluate_policy_row p ctx (some r) ≡ true
  unfolding match_stability_of evaluate_policy_row
  row-always p r h = ground arith

  row-never :
      (p : PolicyRow) (r : Json)
      → match_stability_of p ctx ≡ never
      → evaluate_policy_row p ctx (some r) ≡ false
  unfolding match_stability_of evaluate_policy_row
  row-never p r h = ground arith

  flags_from_lem :
      (f : Flags) (ps : List PolicyRow)
      → flags_from f ps ctx ≡ record {
        always_allow = f.always_allow || any (fixed (λ p. not (is_deny p.effect))) ps;
        always_deny = f.always_deny || any (fixed (λ p. is_deny p.effect)) ps;
        steerable_allow = f.steerable_allow || any (steered (λ p. not (is_deny p.effect))) ps;
        steerable_deny = f.steerable_deny || any (steered (λ p. is_deny p.effect)) ps;
      }
  unfolding flags_from
  flags_from_lem f [] = ground arith
  flags_from_lem f (p ∷ ps) =
      flags_from_lem (raise (is_deny p.effect) (match_stability_of p ctx) f) ps ∙ ground arith

  -- A row that matches every record is among the matching rows, whatever the record.
  any-fixed :
      (effect : PolicyRow → Bool) (r : Json) (ps : List PolicyRow)
      → any (fixed effect) ps ≡ true
      → any (λ p. evaluate_policy_row p ctx (some r) && effect p) ps ≡ true
  any-fixed effect r [] h = h
  any-fixed effect r (p ∷ ps) h = ground (arith, row-always p r, any-fixed effect r ps)

  -- Without fixed or steered rows no row matches, whatever the record.
  any-none :
      (effect : PolicyRow → Bool) (r : Json) (ps : List PolicyRow)
      → any (fixed effect) ps ≡ false
      → any (steered effect) ps ≡ false
      → any (λ p. evaluate_policy_row p ctx (some r) && effect p) ps ≡ false
  any-none effect r [] h k = refl
  any-none effect r (p ∷ ps) h k = ground (arith, row-never p r, any-none effect r ps)

  -- If the verdict of a set of policies is reported as not depending on the record, then it is the
  -- same for any two records.
  pub verdict_is_record_dependent_sound :
      (ps : List PolicyRow) (r q : Json)
      → verdict_is_record_dependent ps ctx ≡ false
      → evaluate_policies ps ctx (some r) ≡ evaluate_policies ps ctx (some q)
  unfolding verdict_is_record_dependent
  verdict_is_record_dependent_sound ps r q h =
      rw (evaluate_policies_lem ctx (some r) ps, evaluate_policies_lem ctx (some q) ps)
        (ground (
          arith,
          flags_from_lem no_flags ps,
          any-fixed (λ p. is_deny p.effect) r ps,
          any-fixed (λ p. is_deny p.effect) q ps,
          any-none (λ p. is_deny p.effect) r ps,
          any-none (λ p. is_deny p.effect) q ps,
          any-fixed (λ p. not (is_deny p.effect)) r ps,
          any-fixed (λ p. not (is_deny p.effect)) q ps,
          any-none (λ p. not (is_deny p.effect)) r ps,
          any-none (λ p. not (is_deny p.effect)) q ps,
        ))
