-- ===== src/Prelude/Maps.antt =====
-- Laws of the maps by texts.
use Prim.Native.String.{String}
use mathlib.Core.Path.{◌≡◌}
use mathlib.Core.List.{List, [], ◌∷◌}
use mathlib.Core.Option.{none, some}
use native.Mathlib.Omega.{arith}
use text.Mathlib.Text.{◌==◌}
use text.Mathlib.TextEquality.{eq_iff}
use text.Mathlib.TextPositions.{eq_refl}
use cluster_api_provider_ucl.Prelude.Tests.{if◌then◌else◌}
use cluster_api_provider_ucl.Prelude.Lists.{lookup, insert, remove}

module _ {V : Type 0} where
  pub lookup-insert :
      (k : String) (v : V) (m : List (String × V)) → lookup k (insert k v m) ≡ some v
  lookup-insert k v [] = ground (arith, eq_refl k)
  lookup-insert k v ((j, w) ∷ m) = ground (arith, eq_refl k, lookup-insert k v m)

  -- A write of the value that a key has leaves it that value.
  pub lookup-insert-kept :
      (k j : String) (v : V) (m : List (String × V))
      → lookup k m ≡ some v
      → lookup k (insert j v m) ≡ some v
  lookup-insert-kept k j v [] p = cc
  lookup-insert-kept k j v ((i, w) ∷ m) p =
      ground (arith, eq_iff i j, eq_iff i k, eq_iff j k, lookup-insert-kept k j v m)

  pub lookup-remove :
      (k j : String) (m : List (String × V))
      → lookup k (remove j m) ≡ (if j == k then none else lookup k m)
  lookup-remove k j [] = ground arith
  lookup-remove k j ((i, v) ∷ m) =
      ground (arith, eq_iff i j, eq_iff i k, eq_iff j k, lookup-remove k j m)
