-- ===== src/Dict.antt =====
-- Go's maps and `sync.Map`, as association lists. The order in which `Range` visits the entries
-- is the order of the list; Go leaves it open.
pub mod Laws
pub mod Entries
use v2b_x_patched_by_haman.Prelude.{
  Bool, Option, none, some, List, [], ◌∷◌, MapKey, ◌==◌, if◌then◌else◌,
}

abbrev pub Dict {ℓ κ} : Type ℓ → Type κ → Type (ℓ ⊔ κ)
Dict K V = List (K × V)

module _ {ℓ κ} {K : Type ℓ} {V : Type κ} ⦃e : MapKey K⦄ where
  -- v, ok := m[k], or m.Load(k)
  unfoldable pub get : Dict K V → K → Option V
  get [] k = none
  get ((j, v) ∷ m) k = if j == k then some v else get m k

  -- m[k] = v, or m.Store(k, v)
  unfoldable pub put : Dict K V → K → V → Dict K V
  put [] k v = (k, v) ∷ []
  put ((j, w) ∷ m) k v = let rest = put m k v in if j == k then (j, v) ∷ m else (j, w) ∷ rest

  -- delete(m, k), or m.Delete(k)
  unfoldable pub remove : Dict K V → K → Dict K V
  remove [] k = []
  remove ((j, w) ∷ m) k = let rest = remove m k in if j == k then rest else (j, w) ∷ rest
