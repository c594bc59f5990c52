-- ===== src/Prelude/Maps.antt =====
-- Go's `map[string]V` as an association list: one order in which a `range` may visit the entries.
use Prim.Native.String.{String}
use Prim.Native.Nat.{suc, ◌≤◌, ◌<◌}
use mathlib.Core.Path.{◌≡◌, refl}
use mathlib.Core.Bool.{Bool, false, ◌||◌}
use mathlib.Core.List.{List, [], ◌∷◌}
use mathlib.Core.Option.{Option, none, some}
use native.Mathlib.Omega.{arith}
use text.Mathlib.TextEquality.{eq_iff}
use roost_keeper.Prelude.Lists.{length}
use roost_keeper.Prelude.Tests.{str_eq, if◌then◌else◌}

-- whether a list of keys holds a key
abbrev pub member : String → List String → Bool
member k [] = false
member k (j ∷ js) = str_eq j k || member k js

module _ {ℓ} {V : Type ℓ} where
  -- the keys, in the order of a `range`
  abbrev pub keys : List (String × V) → List String
  keys [] = []
  keys ((j, x) ∷ es) = j ∷ keys es

  -- `v, ok := m[k]`
  unfoldable pub lookup : String → List (String × V) → Option V
  lookup k [] = none
  lookup k ((j, x) ∷ es) = if str_eq j k then some x else lookup k es

  -- `m[k] = v`
  unfoldable pub insert : String → V → List (String × V) → List (String × V)
  insert k x [] = (k, x) ∷ []
  insert k x ((j, w) ∷ es) = if str_eq j k then (k, x) ∷ es else (j, w) ∷ insert k x es

  -- `delete(m, k)`
  unfoldable pub delete : String → List (String × V) → List (String × V)
  delete k [] = []
  delete k ((j, w) ∷ es) = let rest = delete k es in if str_eq j k then rest else (j, w) ∷ rest

  pub lookup-insert :
      (k j : String) (x : V) (es : List (String × V))
      → lookup j (insert k x es) ≡ (if str_eq k j then some x else lookup j es)
  unfolding lookup insert
  lookup-insert k j x [] = refl
  lookup-insert k j x ((i, w) ∷ es) =
      ground (arith, eq_iff k j, eq_iff i k, eq_iff i j, lookup-insert k j x es)

  pub lookup-delete :
      (k j : String) (es : List (String × V))
      → lookup j (delete k es) ≡ (if str_eq k j then none else lookup j es)
  unfolding lookup delete
  lookup-delete k j [] = ground arith
  lookup-delete k j ((i, w) ∷ es) =
      ground (arith, eq_iff k j, eq_iff i k, eq_iff i j, lookup-delete k j es)

  -- a Go map holds a key at most once
  abbrev pub Distinct : List (String × V) → Type ℓ
  Distinct [] = Unit
  Distinct ((j, x) ∷ es) = (lookup j es ≡ none) × Distinct es

  pub insert-Distinct :
      (k : String) (x : V) (es : List (String × V)) → Distinct es → Distinct (insert k x es)
  unfolding insert lookup
  insert-Distinct k x [] d = (refl, tt)
  insert-Distinct k x ((j, w) ∷ es) d =
      ground (arith, eq_iff j k, eq_iff k j, lookup-insert k j x es, insert-Distinct k x es)

  pub delete-Distinct : (k : String) (es : List (String × V)) → Distinct es → Distinct (delete k es)
  unfolding delete
  delete-Distinct k [] d = d
  delete-Distinct k ((j, w) ∷ es) d = ground (arith, lookup-delete k j es, delete-Distinct k es)

  pub length-insert-le :
      (k : String) (x : V) (es : List (String × V)) → length (insert k x es) ≤ suc (length es)
  unfolding insert
  length-insert-le k x [] = omega arith
  length-insert-le k x ((j, w) ∷ es) = ground (arith, length-insert-le k x es)

  -- a write of a key that is there keeps the size
  pub length-insert_self :
      (k : String) (x : V) {y : V} (es : List (String × V))
      → lookup k es ≡ some y
      → length (insert k x es) ≡ length es
  unfolding insert lookup
  length-insert_self k x [] h = absurd (cc)
  length-insert_self k x {y} ((j, w) ∷ es) h = ground (arith, length-insert_self k x {y = y} es)

  pub length-delete-le : (k : String) (es : List (String × V)) → length (delete k es) ≤ length es
  unfolding delete
  length-delete-le k [] = omega arith
  length-delete-le k ((j, w) ∷ es) = ground (arith, length-delete-le k es)

  -- deleting a key that is there makes the map smaller
  pub length-delete-lt :
      (k : String) (x : V) (es : List (String × V))
      → lookup k es ≡ some x
      → length (delete k es) < length es
  unfolding delete lookup
  length-delete-lt k x [] h = absurd (cc)
  length-delete-lt k x ((j, w) ∷ es) h =
      ground (arith, length-delete-le k es, length-delete-lt k x es)

  -- `for _, k := range keys { delete(m, k) }`
  unfoldable pub delete_all : List String → List (String × V) → List (String × V)
  delete_all [] es = es
  delete_all (k ∷ ks) es = delete_all ks (delete k es)

  pub lookup-delete_all :
      (ks : List String) (j : String) (es : List (String × V))
      → lookup j (delete_all ks es) ≡ (if member j ks then none else lookup j es)
  unfolding delete_all
  lookup-delete_all [] j es = refl
  lookup-delete_all (k ∷ ks) j es =
      ground (arith, lookup-delete_all ks j (delete k es), lookup-delete k j es)

  pub length-delete_all-le :
      (ks : List String) (es : List (String × V)) → length (delete_all ks es) ≤ length es
  unfolding delete_all
  length-delete_all-le [] es = omega arith
  length-delete_all-le (k ∷ ks) es =
      omega (arith, length-delete_all-le ks (delete k es), length-delete-le k es)

  pub delete_all-Distinct :
      (ks : List String) (es : List (String × V)) → Distinct es → Distinct (delete_all ks es)
  unfolding delete_all
  delete_all-Distinct [] es d = d
  delete_all-Distinct (k ∷ ks) es d = delete_all-Distinct ks (delete k es) (delete-Distinct k es d)

  -- the keys of the entries that pass a test, in the order of a `range`
  unfoldable pub keys_where : (V → Bool) → List (String × V) → List String
  keys_where p [] = []
  keys_where p ((j, x) ∷ es) = let rest = keys_where p es in if p x then j ∷ rest else rest

  abbrev pub passes : (V → Bool) → Option V → Bool
  passes p none = false
  passes p (some x) = p x

  keys_where_absent :
      (p : V → Bool) (j : String) (es : List (String × V))
      → lookup j es ≡ none
      → member j (keys_where p es) ≡ false
  unfolding keys_where lookup
  keys_where_absent p j [] h = refl
  keys_where_absent p j ((i, w) ∷ es) h = ground (arith, keys_where_absent p j es)

  pub member-keys_where :
      (p : V → Bool) (j : String) (es : List (String × V))
      → Distinct es
      → member j (keys_where p es) ≡ passes p (lookup j es)
  unfolding keys_where lookup
  member-keys_where p j [] d = refl
  member-keys_where p j ((i, w) ∷ es) d =
      ground (arith, eq_iff i j, member-keys_where p j es, keys_where_absent p j es)
