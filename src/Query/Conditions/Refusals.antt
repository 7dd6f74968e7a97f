-- ===== src/Query/Conditions/Refusals.antt =====
-- What go/query/condition_to_sql.go refuses to translate.
use metap.Prelude.{
  Bool, true, false, Option, none, List, String, ◌≡◌, refl, ◌⊎◌, inl, inr, has_prefix, cut,
  Option-cases, Bool-cases, arith,
}
use metap.Prelude.Int.{ℤ}
use metap.Json.{Json}
use metap.Permission.Context.{RequestContext}
use metap.Permission.Condition.{
  ConditionOp, eq, neq, in_list, not_in, gt, gte, lt, lte, contains, not_contains, unknown,
  PolicyValue, PolicyCondition, attribute, all_of, any_of, Conditions, nil, cons,
}
use metap.Permission.Resolve.{is_context_attribute, workflow_attribute_prefix}
use metap.Query.Params.{Params}
use metap.Query.Conditions.{
  Built, built, refused, ClauseError, Clause, ◌>>=◌, ColType, field_expression, resolve_expected,
  operator_clause, attribute_clause, condition_to_sql, each_to_sql,
}

-- The operators that have a form in SQL.
abbrev pub is_translated : ConditionOp → Bool
is_translated contains = false
is_translated not_contains = false
is_translated (unknown name) = false
is_translated _ = true

-- A condition that a list can apply: its attributes are of the request, or of the record itself.
unfoldable mutual
  pub IsTranslatable : PolicyCondition → Type 0
  IsTranslatable (attribute path op value) =
      (is_context_attribute path ≡ true)
      ⊎ ((has_prefix path workflow_attribute_prefix ≡ false)
          × (cut b'.' path ≡ none)
          × (is_translated op ≡ true))
  IsTranslatable (all_of cs) = AreTranslatable cs
  IsTranslatable (any_of cs) = AreTranslatable cs

  pub AreTranslatable : Conditions → Type 0
  AreTranslatable nil = Unit {0}
  AreTranslatable (cons c cs) = IsTranslatable c × AreTranslatable cs

built-cases :
    {A : Type 0} (r : Built A)
    → ((a : A) × (qs : Params) × (r ≡ built a qs)) ⊎ ((e : ClauseError) × (r ≡ refused e))
built-cases (built a qs) = inl (a, qs, refl)
built-cases (refused e) = inr (e, refl)

-- Inversion of a bind that builds.
pub >>=-built :
    {A B : Type 0} (m : Clause A) (f : A → Clause B) (ps : Params) {b : B} {rs : Params}
    → (m >>= f) ps ≡ built b rs
    → (a : A) × (qs : Params) × (m ps ≡ built a qs) × (f a qs ≡ built b rs)
>>=-built m f ps h = elim (built-cases (m ps)) [
  | inl (a, qs, made) ↦ (a, qs, made, ground (arith, made))
  | inr (e, broken) ↦ absurd (ground (arith, broken))
]

module _ (parse_uuid : String → Option String) (number_text : ℤ → String)
    (ctx : RequestContext) where
  operator_translated :
      (op : ConditionOp) (path expr : String) (t : ColType) (v : Option Json) (ps : Params)
      {sql : String} {qs : Params}
      → operator_clause parse_uuid number_text op path expr t v ps ≡ built sql qs
      → is_translated op ≡ true
  unfolding operator_clause
  operator_translated eq path expr t v ps h = refl
  operator_translated neq path expr t v ps h = refl
  operator_translated in_list path expr t v ps h = refl
  operator_translated not_in path expr t v ps h = refl
  operator_translated gt path expr t v ps h = refl
  operator_translated gte path expr t v ps h = refl
  operator_translated lt path expr t v ps h = refl
  operator_translated lte path expr t v ps h = refl
  operator_translated contains path expr t v ps h = cc
  operator_translated not_contains path expr t v ps h = cc
  operator_translated (unknown name) path expr t v ps h = cc

  undotted :
      (path : String) (ps : Params) {found : String × ColType} {qs : Params}
      → field_expression path ps ≡ built found qs
      → cut b'.' path ≡ none
  unfolding field_expression
  undotted path ps h = elim (Option-cases (cut b'.' path)) [
    | inl plain ↦ plain
    | inr (parts, dotted) ↦ absurd (ground (arith, dotted))
  ]

  record_attribute :
      (path : String) (op : ConditionOp) (value : PolicyValue) (ps : Params) (sql : String)
      (out : Params)
      → is_context_attribute path ≡ false
      → has_prefix path workflow_attribute_prefix ≡ false
      → attribute_clause parse_uuid number_text path op value ctx ps ≡ built sql out
      → IsTranslatable (attribute path op value)
  unfolding attribute_clause IsTranslatable
  record_attribute path op value ps sql out own plain h =
      let on_column : String × ColType → Clause String = λ found.
        operator_clause parse_uuid number_text op path found.0 found.1
          (resolve_expected value ctx) in
      let body : (field_expression path >>= on_column) ps ≡ built sql out =
        ground (arith, own, plain) in
      let (found, qs, made, rest) = >>=-built (field_expression path) on_column ps body in
      inr (
        plain,
        undotted path ps made,
        operator_translated op path found.0 found.1 (resolve_expected value ctx) qs rest,
      )

  attribute-IsTranslatable :
      (path : String) (op : ConditionOp) (value : PolicyValue) (ps : Params) {sql : String}
      {qs : Params}
      → attribute_clause parse_uuid number_text path op value ctx ps ≡ built sql qs
      → IsTranslatable (attribute path op value)
  unfolding attribute_clause IsTranslatable
  attribute-IsTranslatable path op value ps h = elim (Bool-cases (is_context_attribute path)) [
    | inl constant ↦ inl constant
    | inr own ↦ elim (Bool-cases (has_prefix path workflow_attribute_prefix)) [
      | inl of_workflow ↦ absurd (ground (arith, own, of_workflow))
      | inr plain ↦ record_attribute path op value ps _ _ own plain h
    ]
  ]

  mutual
    unfolding condition_to_sql IsTranslatable

    pub condition-IsTranslatable :
        (c : PolicyCondition) (ps : Params) {sql : String} {qs : Params}
        → condition_to_sql parse_uuid number_text c ctx ps ≡ built sql qs
        → IsTranslatable c
    condition-IsTranslatable (attribute path op value) ps h =
        attribute-IsTranslatable path op value ps h
    condition-IsTranslatable (all_of nil) ps h = tt
    condition-IsTranslatable (all_of (cons c cs)) ps h =
        let (clauses, rs, made, rest) =
          >>=-built (each_to_sql parse_uuid number_text (cons c cs) ctx) _ ps h in
        each-AreTranslatable (cons c cs) ps made
    condition-IsTranslatable (any_of nil) ps h = tt
    condition-IsTranslatable (any_of (cons c cs)) ps h =
        let (clauses, rs, made, rest) =
          >>=-built (each_to_sql parse_uuid number_text (cons c cs) ctx) _ ps h in
        each-AreTranslatable (cons c cs) ps made

    each-AreTranslatable :
        (cs : Conditions) (ps : Params) {clauses : List String} {qs : Params}
        → each_to_sql parse_uuid number_text cs ctx ps ≡ built clauses qs
        → AreTranslatable cs
    each-AreTranslatable nil ps h = tt
    each-AreTranslatable (cons c cs) ps h =
        let (clause, qs, made, rest) =
          >>=-built (condition_to_sql parse_uuid number_text c ctx) _ ps h in
        let (clauses, rs, others, last) =
          >>=-built (each_to_sql parse_uuid number_text cs ctx) _ qs rest in
        (condition-IsTranslatable c ps made, each-AreTranslatable cs qs others)
