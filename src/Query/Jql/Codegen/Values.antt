-- ===== src/Query/Jql/Codegen/Values.antt =====
-- How the text that go/query/jql_codegen.go makes of a query depends on the query's values.
use Prim.Native.String.{◌++◌ as append}
use metap.Prelude.{
  suc, Bool, true, false, Option, none, some, List, [], ◌∷◌, ◌++◌, String, ◌≡◌, ◌≢◌, refl, sym, ap,
  ◌∙◌, ◌==◌, length, if◌then◌else◌,
}
use metap.Metadata.Entity.{EntityDefinition, EntityField, field_has_real_column}
use metap.Query.Params.{BindValue, text_bind, Params, push, placeholder}
use metap.Query.Jql.Syntax.{
  Jql, ok, invalid, out_of_fuel, JqlCompareOp, op_eq, op_ne, op_gt, op_gte, op_lt, op_lte,
  op_contains, op_not_contains, JqlValue, str_value, bool_value, JqlExpr, compare, in_values,
  is_empty, conj, disj, negation, JqlExprs, nil, cons,
}
use metap.Query.Jql.Codegen.{
  Sql, bind, JqlFieldType, resolve_jql_field, find_field, validate_jql_op, op_allowed, compare_sql,
  placeholders, in_sql, compile_jql_expr, compile_each, lhs_of, declared_field, ilike,
  plain_compare, refuse, jql_ilike_pattern, jql_value_to_bind_text, none_given, pure,
  jql_cast_suffix,
}

-- The value with its content left out.
abbrev pub erase_value : JqlValue → JqlValue
erase_value (str_value s) = str_value ""
erase_value (bool_value b) = bool_value false

abbrev pub erase_values : List JqlValue → List JqlValue
erase_values [] = []
erase_values (v ∷ vs) = erase_value v ∷ erase_values vs

-- The query with the content of every value left out: fields, operators and structure stay.
unfoldable mutual
  pub erase : JqlExpr → JqlExpr
  erase (compare field op v) = compare field op (erase_value v)
  erase (in_values field negate vs) = in_values field negate (erase_values vs)
  erase (is_empty field negate) = is_empty field negate
  erase (conj es) = conj (erase_each es)
  erase (disj es) = disj (erase_each es)
  erase (negation e) = negation (erase e)

  pub erase_each : JqlExprs → JqlExprs
  erase_each nil = nil
  erase_each (cons e es) = cons (erase e) (erase_each es)

-- The same result with as many parameters, or the same message.
abbrev pub Agree : {A : Type 0} → Jql (A × Params) → Jql (A × Params) → Type 0
Agree (ok (a, ps)) (ok (b, qs)) = (a ≡ b) × (length ps ≡ length qs)
Agree (invalid m) (invalid n) = m ≡ n
Agree _ _ = ⊥

module _ {A B : Type 0} where
  bind-Agree :
      (f g : A → Sql B) (r s : Jql (A × Params))
      → Agree r s
      → ((a : A) (ps qs : Params) → length ps ≡ length qs → Agree (f a ps) (g a qs))
      → Agree
          (elim r [
            | ok (a, qs) ↦ f a qs
            | invalid message ↦ invalid message
            | out_of_fuel ↦ out_of_fuel
          ])
          (elim s [
            | ok (a, qs) ↦ g a qs
            | invalid message ↦ invalid message
            | out_of_fuel ↦ out_of_fuel
          ])
  bind-Agree f g (ok (a, ps)) (ok (b, qs)) h go = rw (← h.0) (go a ps qs h.1)
  bind-Agree f g (invalid m) (invalid n) h go = h
  bind-Agree f g (ok _) (invalid _) h go = absurd h
  bind-Agree f g (ok _) out_of_fuel h go = absurd h
  bind-Agree f g (invalid _) (ok _) h go = absurd h
  bind-Agree f g (invalid _) out_of_fuel h go = absurd h
  bind-Agree f g out_of_fuel _ h go = absurd h

length-append_one : (ps : Params) (v : BindValue) → length (ps ++ v ∷ []) ≡ suc (length ps)
length-append_one [] v = refl
length-append_one (p ∷ ps) v = ap suc (length-append_one ps v)

bind-value-Agree :
    (v w : BindValue) (ps qs : Params) → length ps ≡ length qs → Agree (bind v ps) (bind w qs)
unfolding bind push
bind-value-Agree v w ps qs h =
    let e : length (ps ++ v ∷ []) ≡ length (qs ++ w ∷ []) =
      length-append_one ps v ∙ ap suc h ∙ sym (length-append_one qs w) in
    (ap placeholder e, e)

-- Two steps that agree on parameter lists of one length.
abbrev SameText : {A : Type 0} → Sql A → Sql A → Type 0
SameText m n = (ps qs : Params) → length ps ≡ length qs → Agree (m ps) (n qs)

if-SameText :
    {A : Type 0} (b : Bool) (m n m' n' : Sql A)
    → SameText m m'
    → SameText n n'
    → SameText (if b then m else n) (if b then m' else n')
if-SameText true m n m' n' h k = h
if-SameText false m n m' n' h k = k

declared-SameText :
    (field : String) (f : EntityField) → SameText (declared_field field f) (declared_field field f)
declared-SameText field f =
    if-SameText (field_has_real_column f) _ _ _ _ (λ ps qs h. (refl, h))
      (λ ps qs h.
        bind-Agree _ _ (bind (text_bind field) ps) (bind (text_bind field) qs)
          (bind-value-Agree (text_bind field) (text_bind field) ps qs h)
          (λ ph ps' qs' k. (refl, k)))

resolve-SameText :
    (field : String) (entity : EntityDefinition)
    → SameText (resolve_jql_field field entity) (resolve_jql_field field entity)
unfolding resolve_jql_field
resolve-SameText field entity =
    if-SameText (field == "createdAt") _ _ _ _ (λ ps qs h. (refl, h))
      (if-SameText (field == "updatedAt") _ _ _ _ (λ ps qs h. (refl, h))
        (found (find_field field entity.fields)))
  where
    found :
        (o : Option EntityField)
        → SameText {A = String × JqlFieldType}
            (elim o [
              | none ↦ refuse (append "Unknown field: " field)
              | some f ↦ declared_field field f
            ])
            (elim o [
              | none ↦ refuse (append "Unknown field: " field)
              | some f ↦ declared_field field f
            ])
    found none = λ ps qs h. refl
    found (some f) = declared-SameText field f

ilike-SameText :
    (field lhs operator : String) (v : JqlValue)
    → SameText (ilike field lhs operator v) (ilike field lhs operator (erase_value v))
ilike-SameText field lhs operator (bool_value b) ps qs h = refl
ilike-SameText field lhs operator (str_value s) ps qs h =
    bind-Agree _ _ (bind (text_bind (jql_ilike_pattern s)) ps)
      (bind (text_bind (jql_ilike_pattern "")) qs)
      (bind-value-Agree (text_bind (jql_ilike_pattern s)) (text_bind (jql_ilike_pattern "")) ps qs
        h)
      (λ ph ps' qs' k. (refl, k))

compared-SameText :
    (op : JqlCompareOp) (v w : JqlValue) (found : String × JqlFieldType)
    → SameText (plain_compare op v found) (plain_compare op w found)
compared-SameText op v w found ps qs h =
    bind-Agree _ _ (bind (text_bind (jql_value_to_bind_text v)) ps)
      (bind (text_bind (jql_value_to_bind_text w)) qs)
      (bind-value-Agree (text_bind (jql_value_to_bind_text v))
        (text_bind (jql_value_to_bind_text w)) ps qs h)
      (λ ph ps' qs' k. (refl, k))

compare-SameText :
    (field : String) (op : JqlCompareOp) (v : JqlValue) (found : String × JqlFieldType)
    → SameText (compare_sql field op v found) (compare_sql field op (erase_value v) found)
unfolding compare_sql
compare-SameText field op_contains v found = ilike-SameText field (lhs_of found) " ILIKE " v
compare-SameText field op_not_contains v found = ilike-SameText field (lhs_of found) " NOT ILIKE " v
compare-SameText field op_eq v found = compared-SameText op_eq v (erase_value v) found
compare-SameText field op_ne v found = compared-SameText op_ne v (erase_value v) found
compare-SameText field op_gt v found = compared-SameText op_gt v (erase_value v) found
compare-SameText field op_gte v found = compared-SameText op_gte v (erase_value v) found
compare-SameText field op_lt v found = compared-SameText op_lt v (erase_value v) found
compare-SameText field op_lte v found = compared-SameText op_lte v (erase_value v) found

placeholders-SameText :
    (t : JqlFieldType) (vs : List JqlValue)
    → SameText (placeholders t vs) (placeholders t (erase_values vs))
unfolding placeholders
placeholders-SameText t [] ps qs h = (refl, h)
placeholders-SameText t (v ∷ vs) ps qs h =
    let x = text_bind (jql_value_to_bind_text v) in
    let y = text_bind (jql_value_to_bind_text (erase_value v)) in
    bind-Agree _ _ (bind x ps) (bind y qs) (bind-value-Agree x y ps qs h) (λ ph ps1 qs1 k1.
      bind-Agree (λ rest. pure (append ph (jql_cast_suffix t) ∷ rest))
        (λ rest. pure (append ph (jql_cast_suffix t) ∷ rest)) (placeholders t vs ps1)
        (placeholders t (erase_values vs) qs1) (placeholders-SameText t vs ps1 qs1 k1)
        (λ rest ps2 qs2 k2. (refl, k2)))

validate-SameText :
    (op : JqlCompareOp) (t : JqlFieldType) (field : String)
    → SameText (validate_jql_op op t field) (validate_jql_op op t field)
unfolding validate_jql_op
validate-SameText op t field =
    if-SameText (op_allowed op t) _ _ _ _ (λ ps qs h. (refl, h)) (λ ps qs h. refl)

none_given-erase : (vs : List JqlValue) → none_given (erase_values vs) ≡ none_given vs
none_given-erase [] = refl
none_given-erase (v ∷ vs) = refl

in-SameText :
    (field : String) (negate : Bool) (vs : List JqlValue) (entity : EntityDefinition)
    → SameText (in_sql field negate vs entity) (in_sql field negate (erase_values vs) entity)
unfolding in_sql
in-SameText field negate vs entity = rw (none_given-erase vs) (
    if-SameText (none_given vs) _ _ _ _ (λ ps qs h. refl)
      (λ ps qs h.
        bind-Agree _ _ (resolve_jql_field field entity ps) (resolve_jql_field field entity qs)
          (resolve-SameText field entity ps qs h)
          (λ found ps1 qs1 k1.
            bind-Agree _ _ (placeholders found.1 vs ps1)
              (placeholders found.1 (erase_values vs) qs1)
              (placeholders-SameText found.1 vs ps1 qs1 k1) (λ phs ps2 qs2 k2. (refl, k2)))))

mutual
  unfolding compile_jql_expr erase

  compile-SameText :
      (e : JqlExpr) (entity : EntityDefinition)
      → SameText (compile_jql_expr e entity) (compile_jql_expr (erase e) entity)
  compile-SameText (compare field op v) entity ps qs h =
      bind-Agree _ _ (resolve_jql_field field entity ps) (resolve_jql_field field entity qs)
        (resolve-SameText field entity ps qs h)
        (λ found ps1 qs1 k1.
          bind-Agree _ _ (validate_jql_op op found.1 field ps1)
            (validate_jql_op op found.1 field qs1) (validate-SameText op found.1 field ps1 qs1 k1)
            (λ _. compare-SameText field op v found))
  compile-SameText (in_values field negate vs) entity ps qs h =
      in-SameText field negate vs entity ps qs h
  compile-SameText (is_empty field negate) entity ps qs h =
      bind-Agree _ _ (resolve_jql_field field entity ps) (resolve_jql_field field entity qs)
        (resolve-SameText field entity ps qs h) (λ found ps1 qs1 k1. (refl, k1))
  compile-SameText (conj es) entity ps qs h =
      bind-Agree _ _ (compile_each es entity ps) (compile_each (erase_each es) entity qs)
        (each-SameText es entity ps qs h) (λ parts ps1 qs1 k1. (refl, k1))
  compile-SameText (disj es) entity ps qs h =
      bind-Agree _ _ (compile_each es entity ps) (compile_each (erase_each es) entity qs)
        (each-SameText es entity ps qs h) (λ parts ps1 qs1 k1. (refl, k1))
  compile-SameText (negation e) entity ps qs h =
      bind-Agree _ _ (compile_jql_expr e entity ps) (compile_jql_expr (erase e) entity qs)
        (compile-SameText e entity ps qs h) (λ s ps1 qs1 k1. (refl, k1))

  each-SameText :
      (es : JqlExprs) (entity : EntityDefinition)
      → SameText (compile_each es entity) (compile_each (erase_each es) entity)
  each-SameText nil entity ps qs h = (refl, h)
  each-SameText (cons e es) entity ps qs h =
      bind-Agree _ _ (compile_jql_expr e entity ps) (compile_jql_expr (erase e) entity qs)
        (compile-SameText e entity ps qs h)
        (λ s ps1 qs1 k1.
          bind-Agree (λ rest. pure (s ∷ rest)) (λ rest. pure (s ∷ rest))
            (compile_each es entity ps1) (compile_each (erase_each es) entity qs1)
            (each-SameText es entity ps1 qs1 k1) (λ rest ps2 qs2 k2. (refl, k2)))

Agree-join : {A : Type 0} (r s x : Jql (A × Params)) → Agree r x → Agree s x → Agree r s
Agree-join (ok (a, ps)) (ok (b, qs)) (ok (c, xs)) h k = (h.0 ∙ sym k.0, h.1 ∙ sym k.1)
Agree-join (invalid m) (invalid n) (invalid o) h k = h ∙ sym k
Agree-join (ok _) (invalid _) (ok _) h k = absurd k
Agree-join (ok _) (invalid _) (invalid _) h k = absurd h
Agree-join (ok _) (invalid _) out_of_fuel h k = absurd h
Agree-join (invalid _) (ok _) (ok _) h k = absurd h
Agree-join (invalid _) (ok _) (invalid _) h k = absurd k
Agree-join (invalid _) (ok _) out_of_fuel h k = absurd h
Agree-join (ok _) (ok _) (invalid _) h k = absurd h
Agree-join (ok _) (ok _) out_of_fuel h k = absurd h
Agree-join (invalid _) (invalid _) (ok _) h k = absurd h
Agree-join (invalid _) (invalid _) out_of_fuel h k = absurd h
Agree-join (ok _) out_of_fuel (ok _) h k = absurd k
Agree-join (ok _) out_of_fuel (invalid _) h k = absurd h
Agree-join (ok _) out_of_fuel out_of_fuel h k = absurd h
Agree-join (invalid _) out_of_fuel (ok _) h k = absurd h
Agree-join (invalid _) out_of_fuel (invalid _) h k = absurd k
Agree-join (invalid _) out_of_fuel out_of_fuel h k = absurd h
Agree-join out_of_fuel s x h k = absurd h

-- Nothing of a value gets into the text: two queries that differ in the content of their values only
-- compile to the same text with as many parameters, or are refused with the same message, on
-- whatever parameters of one number they start from.
pub compile_jql_expr-values :
    (e e' : JqlExpr) (entity : EntityDefinition) (ps ps' : Params)
    → erase e ≡ erase e'
    → length ps ≡ length ps'
    → Agree (compile_jql_expr e entity ps) (compile_jql_expr e' entity ps')
compile_jql_expr-values e e' entity ps ps' same h =
    Agree-join (compile_jql_expr e entity ps) (compile_jql_expr e' entity ps')
      (compile_jql_expr (erase e) entity ps) (compile-SameText e entity ps ps refl)
      (rw same (compile-SameText e' entity ps' ps (sym h)))

Agree-ne-out_of_fuel : {A : Type 0} (r s : Jql (A × Params)) → Agree r s → r ≢ out_of_fuel
Agree-ne-out_of_fuel (ok _) s h = λ e. cc
Agree-ne-out_of_fuel (invalid _) s h = λ e. cc
Agree-ne-out_of_fuel out_of_fuel s h = absurd h

pub compile-ne-out_of_fuel :
    (e : JqlExpr) (entity : EntityDefinition) (ps : Params)
    → compile_jql_expr e entity ps ≢ out_of_fuel
compile-ne-out_of_fuel e entity ps =
    Agree-ne-out_of_fuel (compile_jql_expr e entity ps) (compile_jql_expr (erase e) entity ps)
      (compile-SameText e entity ps ps refl)
