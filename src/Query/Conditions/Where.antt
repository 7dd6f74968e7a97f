-- ===== src/Query/Conditions/Where.antt =====
-- RecordPolicyWhereClause of go/query/condition_to_sql.go: when a list is filtered, and by what.
use metap.Prelude.{
  Bool, true, false, not, Option, none, some, List, [], ◌∷◌, String, ◌≡◌, ◌≢◌, refl, ◌⊎◌, inl, inr,
  any, Bool-cases, if◌then◌else◌, arith,
}
use metap.Prelude.Int.{ℤ}
use metap.Json.{Json}
use metap.Permission.Context.{RequestContext, is_admin}
use metap.Permission.Condition.{PolicyCondition, PolicyRow}
use metap.Permission.Evaluate.{
  role_gate_passed, evaluate_policy_row, evaluate_policies, is_allowed, is_deny,
}
use metap.Permission.Evaluate.Verdict.{allows, evaluate_policies_lem}
use mathlib.Core.Path.{subst}
use metap.Query.Jql.Codegen.{concat, join_sql}
use metap.Query.Params.{Params}
use metap.Query.Conditions.{
  built, condition_to_sql, row_clause, row_clauses, gated, allowing, denying, deny_clause,
  allow_clause, record_policy_where_clause,
}
use metap.Query.Conditions.Refusals.{IsTranslatable, >>=-built, condition-IsTranslatable}

abbrev RowTranslatable : Option PolicyCondition → Type 0
RowTranslatable none = Unit {0}
RowTranslatable (some c) = IsTranslatable c

-- The condition of every row has a form in SQL.
abbrev pub AllTranslatable : List PolicyRow → Type 0
AllTranslatable [] = Unit {0}
AllTranslatable (p ∷ ps) = RowTranslatable p.condition × AllTranslatable ps

parted-AllTranslatable :
    (ps : List PolicyRow)
    → AllTranslatable (allowing ps)
    → AllTranslatable (denying ps)
    → AllTranslatable ps
parted-AllTranslatable [] h k = tt
parted-AllTranslatable (p ∷ ps) h k = parted (is_deny p.effect) (parted-AllTranslatable ps) h k
  where
    parted :
        (b : Bool)
        → (AllTranslatable (allowing ps) → AllTranslatable (denying ps) → AllTranslatable ps)
        → AllTranslatable (if not b then p ∷ allowing ps else allowing ps)
        → AllTranslatable (if b then p ∷ denying ps else denying ps)
        → RowTranslatable p.condition × AllTranslatable ps
    parted true others h k = (k.0, others h k.1)
    parted false others h k = (h.0, others h.1 k)

-- One of the clauses.
abbrev pub group : List String → String
group clauses = concat ("(" ∷ join_sql clauses " OR " ∷ ")" ∷ [])

-- One of the first clauses, and none of the second ones.
abbrev pub filter_text : List String → List String → String
filter_text allows [] = group allows
filter_text allows (d ∷ ds) = concat ("(" ∷ group allows ∷ " AND NOT " ∷ group (d ∷ ds) ∷ ")" ∷ [])

module _ (ctx : RequestContext) (subject : Option Json) where
  -- Without an allowing row behind the gate, no row allows.
  none_allows :
      (ps : List PolicyRow) → allowing (gated ps ctx) ≡ [] → any (allows ctx subject) ps ≡ false
  unfolding evaluate_policy_row
  none_allows [] h = refl
  none_allows (p ∷ ps) h = elim (Bool-cases (role_gate_passed p.roles p.has_roles ctx.roles)) [
    | inr outside ↦ ground (arith, outside, none_allows ps)
    | inl inside ↦ elim (Bool-cases (is_deny p.effect)) [
      | inl denied ↦ ground (arith, inside, denied, none_allows ps)
      | inr allowed ↦ absurd (ground (arith, inside, allowed))
    ]
  ]

  none_allowed :
      (ps : List PolicyRow)
      → allowing (gated ps ctx) ≡ []
      → is_allowed (evaluate_policies ps ctx subject) ≡ false
  none_allowed ps h = ground (arith, evaluate_policies_lem ctx subject ps, none_allows ps h)

module _ (parse_uuid : String → Option String) (number_text : ℤ → String)
    (ctx : RequestContext) where
  -- The clause of one row: of its condition, which has a form in SQL, or "true" without one.
  abbrev RowCompiled : Option PolicyCondition → Params → String → Params → Type 0
  RowCompiled none ps clause qs = (clause ≡ "true") × (qs ≡ ps)
  RowCompiled (some c) ps clause qs =
      (condition_to_sql parse_uuid number_text c ctx ps ≡ built clause qs) × IsTranslatable c

  -- One clause for each row, in order, whose values are bound one after another.
  abbrev pub Compiled : List PolicyRow → Params → List String → Params → Type 0
  Compiled [] ps clauses qs = (clauses ≡ []) × (qs ≡ ps)
  Compiled (p ∷ rows) ps clauses qs =
      (clause : String) × (others : List String) × (between : Params) × (clauses ≡ clause ∷ others)
      × RowCompiled p.condition ps clause between
      × Compiled rows between others qs

  row-RowCompiled :
      (o : Option PolicyCondition) (ps : Params) (sql : String) (qs : Params)
      → row_clause parse_uuid number_text o ctx ps ≡ built sql qs
      → RowCompiled o ps sql qs
  row-RowCompiled none ps sql qs h = (cc, cc)
  row-RowCompiled (some c) ps sql qs h =
      (h, condition-IsTranslatable parse_uuid number_text ctx c ps h)

  rows-Compiled :
      (rows : List PolicyRow) (ps : Params) (clauses : List String) (qs : Params)
      → row_clauses parse_uuid number_text rows ctx ps ≡ built clauses qs
      → Compiled rows ps clauses qs
  unfolding row_clauses
  rows-Compiled [] ps clauses qs h = (cc, cc)
  rows-Compiled (p ∷ rows) ps clauses qs h =
      let (clause, between, made, rest) =
        >>=-built (row_clause parse_uuid number_text p.condition ctx) _ ps h in
      let (others, after, made', last) =
        >>=-built (row_clauses parse_uuid number_text rows ctx) _ between rest in
      let same : after ≡ qs = cc in
      (
        clause,
        others,
        between,
        cc,
        row-RowCompiled p.condition ps clause between made,
        subst (Compiled rows between others) same (rows-Compiled rows between others after made'),
      )

  row-RowTranslatable :
      (o : Option PolicyCondition) (ps : Params) (sql : String) (qs : Params)
      → RowCompiled o ps sql qs
      → RowTranslatable o
  row-RowTranslatable none ps sql qs h = tt
  row-RowTranslatable (some c) ps sql qs h = h.1

  Compiled-AllTranslatable :
      (rows : List PolicyRow) (ps : Params) (clauses : List String) (qs : Params)
      → Compiled rows ps clauses qs
      → AllTranslatable rows
  Compiled-AllTranslatable [] ps clauses qs h = tt
  Compiled-AllTranslatable (p ∷ rows) ps clauses qs (clause, others, between, _, row, rest) = (
    row-RowTranslatable p.condition ps clause between row,
    Compiled-AllTranslatable rows between others qs rest,
  )

  -- Some of the allowing clauses, and none of the denying ones.
  abbrev pub Filters : List PolicyRow → List PolicyRow → Params → Params → Option String → Type 0
  Filters allowed denied ps qs result =
      (allows : List String) × (denials : List String) × (between : Params) × Compiled allowed ps
        allows between
      × Compiled denied between denials qs
      × (result ≡ some (filter_text allows denials))

  deny_clause-Compiled :
      (allows : List String) (denied : List PolicyRow) (ps qs : Params) (result : Option String)
      → deny_clause parse_uuid number_text (group allows) denied ctx ps ≡ built result qs
      → (denials : List String) × Compiled denied ps denials qs
        × (result ≡ some (filter_text allows denials))
  deny_clause-Compiled allows [] ps qs result h = ([], (refl, cc), cc)
  deny_clause-Compiled allows (p ∷ denied) ps qs result h =
      let (clauses, after, made, last) =
        >>=-built (row_clauses parse_uuid number_text (p ∷ denied) ctx) _ ps h in
      let same : after ≡ qs = cc in
      let (clause, others, between, e, row, rest) =
        rows-Compiled (p ∷ denied) ps clauses after made in
      (
        clause ∷ others,
        (clause, others, between, refl, row, subst (Compiled denied between others) same rest),
        cc (e, last),
      )

  allow_clause-Filters :
      (allowed denied : List PolicyRow) (ps qs : Params) (result : Option String)
      → allow_clause parse_uuid number_text allowed denied ctx ps ≡ built result qs
      → ((result ≡ some "false") × (allowed ≡ []))
        ⊎ ((allowed ≢ []) × Filters allowed denied ps qs result)
  allow_clause-Filters [] denied ps qs result h = inl (cc, refl)
  allow_clause-Filters (p ∷ allowed) denied ps qs result h =
      let (allows, between, made, rest) =
        >>=-built (row_clauses parse_uuid number_text (p ∷ allowed) ctx) _ ps h in
      let (denials, compiled, text) = deny_clause-Compiled allows denied between qs result rest in
      inr (
        λ e. cc,
        (
          allows,
          denials,
          between,
          rows-Compiled (p ∷ allowed) ps allows between made,
          compiled,
          text,
        ),
      )

  filtered :
      (p : PolicyRow) (rows : List PolicyRow) (ps qs : Params) (result : Option String)
      → is_admin ctx ≡ false
      → record_policy_where_clause parse_uuid number_text (p ∷ rows) ctx ps ≡ built result qs
      → allow_clause parse_uuid number_text
          (allowing (gated (p ∷ rows) ctx))
          (denying (gated (p ∷ rows) ctx))
          ctx
          ps
        ≡ built result qs
  unfolding record_policy_where_clause
  filtered p rows ps qs result plain h = ground (arith, plain)

  -- The clause of a list is one of three. There is none: without policies, or for an administrator.
  -- It hides every row: then no row allows, and the check of a record allows no record either,
  -- whatever the record. Or it filters: then some row that applies to the caller's roles allows, and
  -- the text asks for one of the clauses of these and for none of the clauses of those that deny. Each
  -- clause is that of a row's condition, or true without one; and every condition has a form in SQL:
  -- its attributes are of the request or of the record itself, and its operators are no tests of an
  -- array.
  pub record_policy_where_clause_lem :
      (rows : List PolicyRow) (ps qs : Params) (result : Option String) (subject : Option Json)
      → record_policy_where_clause parse_uuid number_text rows ctx ps ≡ built result qs
      → ((result ≡ none) × ((rows ≡ []) ⊎ (is_admin ctx ≡ true)))
        ⊎ (((result ≡ some "false") × (is_allowed (evaluate_policies rows ctx subject) ≡ false))
            ⊎ ((allowing (gated rows ctx) ≢ [])
                × Filters (allowing (gated rows ctx)) (denying (gated rows ctx)) ps qs result
                × AllTranslatable (gated rows ctx)))
  unfolding record_policy_where_clause
  record_policy_where_clause_lem [] ps qs result subject h = inl (cc, inl refl)
  record_policy_where_clause_lem (p ∷ rows) ps qs result subject h =
      let behind = gated (p ∷ rows) ctx in
      elim (Bool-cases (is_admin ctx)) [
        | inl admin ↦ inl (ground (arith, admin), inr admin)
        | inr plain ↦
            elim (allow_clause-Filters (allowing behind) (denying behind) ps qs result
              (filtered p rows ps qs result plain h)) [
                | inl (hidden, nothing) ↦
                    inr (inl (hidden, none_allowed ctx subject (p ∷ rows) nothing))
                | inr (some_allow, (allows, denials, between, allow, deny, text)) ↦ inr (
                    inr (
                      some_allow,
                      (allows, denials, between, allow, deny, text),
                      parted-AllTranslatable behind
                          (Compiled-AllTranslatable (allowing behind) ps allows between allow)
                          (Compiled-AllTranslatable (denying behind) between denials qs deny),
                    ))
              ]
      ]
