-- ===== src/Base/Records.antt =====
-- A `Record<string, V>` or `Map<string, V>` that the program only reads and writes by key.
use Prim.Native.String.{String}
use mathlib.Core.List.{List, [], ◌∷◌}
use mathlib.Core.Option.{Option, none, some}
use text.Mathlib.Text.{◌==◌}
use connect_hub.Base.Tests.{if◌then◌else◌}

abbrev pub Dict {ℓ} : Type ℓ → Type ℓ
Dict V = String → Option V

module _ {ℓ} {V : Type ℓ} where
  abbrev pub empty : Dict V
  empty j = none

  -- `{ ...m, [k]: v }`
  abbrev pub insert : String → V → Dict V → Dict V
  insert k v m j = if k == j then some v else m j

  -- `delete m[k]`
  abbrev pub delete : String → Dict V → Dict V
  delete k m j = if k == j then none else m j

  abbrev pub delete_all : List String → Dict V → Dict V
  delete_all [] m = m
  delete_all (k ∷ ks) m = delete_all ks (delete k m)
