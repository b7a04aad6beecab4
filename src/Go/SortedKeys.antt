-- ===== src/Go/SortedKeys.antt =====
-- The sorted keys of a Go map, which the order of its entries does not change.
use service_mesh_nats_go.Prelude.{
  String, ◌≡◌, ◌∙◌, refl, sym, ap, List, [], ◌∷◌, none, some, ◌==◌, eq_iff, eq_refl, if◌then◌else◌,
  arith,
}
use service_mesh_nats_go.Go.Sort.{insert_text, sort_texts, insert_text_comm}
use service_mesh_nats_go.Go.Map.{Map, IsMap, get}

module _ {ℓ} {V : Type ℓ} where
  -- for k := range m { keys = append(keys, k) }
  abbrev pub keys : Map V → List String
  keys [] = []
  keys ((k, v) ∷ m) = k ∷ keys m

  unfoldable pub sorted_keys : Map V → List String
  unfolding sort_texts
  sorted_keys m = sort_texts (keys m)

  -- A map without one of its keys.
  erase : Map V → String → Map V
  erase [] k = []
  erase ((j, v) ∷ m) k = let rest = erase m k in if j == k then m else (j, v) ∷ rest

  get-erase :
      (m : Map V) (k j : String) → IsMap m → get (erase m k) j ≡ (if k == j then none else get m j)
  unfolding get erase
  get-erase [] k j h = ground arith
  get-erase ((i, v) ∷ m) k j h =
      ground (arith, get-erase m k j h.1, eq_iff i k, eq_iff i j, eq_iff k j)

  erase-IsMap : (m : Map V) (k : String) → IsMap m → IsMap (erase m k)
  unfolding get erase
  erase-IsMap [] k h = tt
  erase-IsMap ((i, v) ∷ m) k h =
      ground (arith, erase-IsMap m k h.1, get-erase m k i h.1, eq_iff k i)

  sorted_keys-erase :
      (m : Map V) (k : String) (v : V)
      → get m k ≡ some v
      → sorted_keys m ≡ insert_text k (sorted_keys (erase m k))
  unfolding get erase sorted_keys
  sorted_keys-erase [] k v h = cc
  sorted_keys-erase ((i, w) ∷ m) k v h =
      ground
        (arith, sorted_keys-erase m k v, insert_text_comm i k (sorted_keys (erase m k)), eq_iff i k)

  nothing_read : (n : Map V) → IsMap n → ((k : String) → none ≡ get n k) → n ≡ []
  unfolding get
  nothing_read [] h r = refl
  nothing_read ((k, v) ∷ n) h r = ground (arith, r k, eq_refl k)

  -- Maps that read the same have the same sorted keys.
  pub sorted_keys-same :
      (m n : Map V)
      → IsMap m
      → IsMap n
      → ((k : String) → get m k ≡ get n k)
      → sorted_keys m ≡ sorted_keys n
  unfolding get sorted_keys
  sorted_keys-same [] n hm hn r = ap sorted_keys (sym (nothing_read n hn r))
  sorted_keys-same ((k, v) ∷ m) n hm hn r =
      let held : get n k ≡ some v = sym (r k) ∙ rw (eq_refl k) refl in
      ap (insert_text k) (
        sorted_keys-same m (erase n k) hm.1 (erase-IsMap n k hn)
          (λ j. ground (arith, get-erase n k j hn, r j, hm.0, eq_iff k j)))
      ∙ sym (sorted_keys-erase n k v held)
