-- ===== src/Go/Map.antt =====
-- Go's `map[string]V`, as the list of its entries in the order in which `range` visits them.
use service_mesh_nats_go.Prelude.{
  String, ◌≡◌, refl, List, [], ◌∷◌, Option, none, some, or_else, arith, ◌==◌, eq_iff, if◌then◌else◌,
}

abbrev pub Map {ℓ} : Type ℓ → Type ℓ
Map V = List (String × V)

module _ {ℓ} {V : Type ℓ} where
  -- v, ok := m[k]
  unfoldable pub get : Map V → String → Option V
  get [] k = none
  get ((j, v) ∷ m) k = if j == k then some v else get m k

  -- m[k] = v
  unfoldable pub put : Map V → String → V → Map V
  put [] k v = (k, v) ∷ []
  put ((j, w) ∷ m) k v = if j == k then (j, v) ∷ m else (j, w) ∷ put m k v

  -- What is read from a map that may be nil: nothing, as from an empty one.
  abbrev pub entries : Option (Map V) → Map V
  entries none = []
  entries (some m) = m

  -- The keys of a Go map are distinct.
  abbrev pub IsMap : Map V → Type ℓ
  IsMap [] = Unit
  IsMap ((k, v) ∷ m) = (get m k ≡ none) × IsMap m

  -- for k, v := range src { md[k] = v }
  unfoldable pub put_all : Map V → Map V → Map V
  put_all md [] = md
  put_all md ((k, v) ∷ src) = put_all (put md k v) src

  pub get-put :
      (m : Map V) (k j : String) (v : V) → get (put m k v) j ≡ (if k == j then some v else get m j)
  unfolding get put
  get-put [] k j v = refl
  get-put ((i, w) ∷ m) k j v = ground (arith, get-put m k j v, eq_iff i k, eq_iff i j, eq_iff k j)

  pub put-IsMap : (m : Map V) (k : String) (v : V) → IsMap m → IsMap (put m k v)
  unfolding put get
  put-IsMap [] k v h = (refl, tt)
  put-IsMap ((i, w) ∷ m) k v h =
      ground (arith, put-IsMap m k v h.1, get-put m k i v, eq_iff i k, eq_iff k i)

  pub put_all-IsMap : (md src : Map V) → IsMap md → IsMap (put_all md src)
  unfolding put_all
  put_all-IsMap md [] h = h
  put_all-IsMap md ((k, v) ∷ src) h = put_all-IsMap (put md k v) src (put-IsMap md k v h)

  -- A copy over another map reads as the copied map first, whatever the order of its entries.
  pub get-put_all :
      (md src : Map V) (j : String)
      → IsMap src
      → get (put_all md src) j ≡ or_else (get src j) (get md j)
  unfolding put_all get
  get-put_all md [] j h = refl
  get-put_all md ((k, v) ∷ src) j h =
      ground (arith, get-put_all (put md k v) src j h.1, get-put md k j v, eq_iff k j)
