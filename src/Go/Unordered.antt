-- ===== src/Go/Unordered.antt =====
-- Go's `map[string]V` without an order of its entries: the lists of entries, of which two are the
-- same map when every key reads the same in both.
use service_mesh_nats_go.Prelude.{String, ◌≡◌, [], Option}
use service_mesh_nats_go.Go.Map.{Map, IsMap, get}
use mathlib.Core.Quot
use mathlib.Core.Quot.{Quot}
use mathlib.Core.Option as Options

module _ {ℓ} where
  abbrev pub Entries : Type ℓ → Type ℓ
  Entries V = (m : Map V) × IsMap m

  abbrev pub ReadsAs : {V : Type ℓ} → Entries V → Entries V → Type ℓ
  ReadsAs m n = (k : String) → get m.0 k ≡ get n.0 k

  abbrev pub GoMap : Type ℓ → Type ℓ
  GoMap V = Quot (ReadsAs {V = V})

abbrev pub no_entries {ℓ} : {V : Type ℓ} → GoMap V
no_entries = Quot.mk ([], tt)

-- v, ok := m[k]
unfoldable pub read {ℓ} : {V : Type ℓ} → IsSet V → String → GoMap V → Option V
read V-set k = Quot.lift (Options.is_set V-set) (λ m. get m.0 k) (λ m n h. h k)
