-- ===== src/Prelude/Maps.antt =====
-- Go's maps with text keys, as association lists: a write replaces the first entry of its key or
-- adds one at the end, so that a map built by writes has no key twice. Iteration is in list order.
use Prim.Native.String.{String}
use mathlib.Core.Path.{◌≡◌, refl}
use mathlib.Core.Option.{Option, none, some}
use mathlib.Core.List.{List, [], ◌∷◌, map}
use native.Mathlib.Omega.{arith}
use text.Mathlib.Text.{◌==◌}
use text.Mathlib.TextEquality.{eq_iff}
use text.Mathlib.TextPositions.{eq_refl}
use metap.Prelude.Tests.{if◌then◌else◌}

abbrev pub Assoc {ℓ} : Type ℓ → Type ℓ
Assoc V = List (String × V)

module _ {ℓ} {V : Type ℓ} where
  -- m[k] = v
  unfoldable pub insert : String → V → Assoc V → Assoc V
  insert k v [] = (k, v) ∷ []
  insert k v (e ∷ m) = let rest = insert k v m in if e.0 == k then (k, v) ∷ m else e ∷ rest

  -- for k, v := range n { m[k] = v }
  unfoldable pub insert_all : Assoc V → Assoc V → Assoc V
  insert_all [] m = m
  insert_all (e ∷ n) m = insert_all n (insert e.0 e.1 m)

  abbrev pub keys : Assoc V → List String
  keys m = map (λ e. e.0) m

  -- v, ok := m[k]
  unfoldable pub lookup : String → Assoc V → Option V
  lookup k [] = none
  lookup k (e ∷ m) = let rest = lookup k m in if e.0 == k then some e.1 else rest

  pub lookup-insert :
      (written read : String) (v : V) (m : Assoc V)
      → lookup read (insert written v m) ≡ (if written == read then some v else lookup read m)
  unfolding insert lookup
  lookup-insert written read v [] = refl
  lookup-insert written read v (e ∷ m) = ground (
    arith,
    lookup-insert written read v m,
    eq_iff e.0 read,
    eq_iff e.0 written,
    eq_iff written read,
  )

  pub lookup-insert_self : (k : String) (v : V) (m : Assoc V) → lookup k (insert k v m) ≡ some v
  lookup-insert_self k v m = simp (lookup-insert, eq_refl)
