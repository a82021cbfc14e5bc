-- ===== src/Common/GoMap.antt =====
-- Go's `map[string]V`. The program never ranges over one of its maps, so a map is a list of
-- entries, one for each key, and clients use the laws.
use log_morph.Common.{
  String, ◌≡◌, Option, none, some, List, [], ◌∷◌, arith, ◌==◌, eq_iff, eq_refl, if◌then◌else◌,
}

abbrev pub Map {ℓ} : Type ℓ → Type ℓ
Map V = List (String × V)

-- `m[k]` where the zero value stands for a missing key
abbrev pub get_or {ℓ} : {V : Type ℓ} → V → Option V → V
get_or zero_value none = zero_value
get_or zero_value (some v) = v

module _ {ℓ} {V : Type ℓ} where
  -- `make(map[string]V)`
  abbrev pub empty : Map V
  empty = []

  -- `v, ok := m[k]`
  unfoldable pub get : Map V → String → Option V
  get [] k = none
  get ((j, v) ∷ m) k = if j == k then some v else get m k

  -- `m[k] = v`
  unfoldable pub put : Map V → String → V → Map V
  put [] k v = (k, v) ∷ []
  put ((j, w) ∷ m) k v = let rest = put m k v in if j == k then (k, v) ∷ m else (j, w) ∷ rest

  -- `delete(m, k)`
  unfoldable pub delete : Map V → String → Map V
  delete [] k = []
  delete ((j, w) ∷ m) k = let rest = delete m k in if j == k then rest else (j, w) ∷ rest

  pub get-put :
      (m : Map V) (k : String) (v : V) (j : String)
      → get (put m k v) j ≡ (if k == j then some v else get m j)
  unfolding get put
  get-put [] k v j = ground arith
  get-put ((i, w) ∷ m) k v j = ground (arith, get-put m k v j, eq_iff i k, eq_iff i j, eq_iff k j)

  pub get-delete :
      (m : Map V) (k j : String) → get (delete m k) j ≡ (if k == j then none else get m j)
  unfolding get delete
  get-delete [] k j = ground arith
  get-delete ((i, w) ∷ m) k j = ground (arith, get-delete m k j, eq_iff i k, eq_iff i j, eq_iff k j)

  pub get-put_self : (m : Map V) (k : String) (v : V) → get (put m k v) k ≡ some v
  get-put_self m k v = ground (arith, get-put m k v k, eq_refl k)
