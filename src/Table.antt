-- ===== src/Table.antt =====
-- Go's `map[string]V`: insertion, deletion and lookup. No modelled code iterates over a map whose
-- order could show, so the order of the entries carries no meaning.
use outlook_agent.Prelude.{
  List, Option, String, [], arith, eq_iff, eq_refl, if◌then◌else◌, none, some, ◌==◌, ◌∷◌, ◌≡◌,
}

abbrev pub Table {ℓ} : Type ℓ → Type ℓ
Table V = List (String × V)

module _ {ℓ} {V : Type ℓ} where
  -- value, ok := m[k]
  unfoldable pub lookup : String → Table V → Option V
  lookup k [] = none
  lookup k ((j, v) ∷ t) = if j == k then some v else lookup k t

  -- delete(m, k)
  unfoldable pub delete : String → Table V → Table V
  delete k [] = []
  delete k ((j, v) ∷ t) = let rest = delete k t in if j == k then rest else (j, v) ∷ rest

  -- m[k] = v
  unfoldable pub insert : String → V → Table V → Table V
  insert k v t = (k, v) ∷ delete k t

  pub lookup-delete :
      (k j : String) (t : Table V) → lookup j (delete k t) ≡ (if k == j then none else lookup j t)
  unfolding lookup delete
  lookup-delete k j [] = ground arith
  lookup-delete k j ((i, v) ∷ t) =
      ground (arith, lookup-delete k j t, eq_iff i k, eq_iff i j, eq_iff k j)

  pub lookup-insert :
      (k j : String) (v : V) (t : Table V)
      → lookup j (insert k v t) ≡ (if k == j then some v else lookup j t)
  unfolding lookup insert
  lookup-insert k j v t = rw (lookup-delete k j t) (ground (arith, eq_iff k j))

  pub lookup-delete_self : (k : String) (t : Table V) → lookup k (delete k t) ≡ none
  lookup-delete_self k t = simp (lookup-delete, eq_refl)

  pub lookup-insert_self : (k : String) (v : V) (t : Table V) → lookup k (insert k v t) ≡ some v
  lookup-insert_self k v t = simp (lookup-insert, eq_refl)

pub ruleset table_laws = (lookup-delete, lookup-insert, eq_refl)
