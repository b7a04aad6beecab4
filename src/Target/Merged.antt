-- ===== src/Target/Merged.antt =====
-- mergeSettings of nats/target.go on maps without an order.
use service_mesh_nats_go.Prelude.{String, Option, none, ◌≡◌, ◌∙◌, sym, [], or_else, arith}
use service_mesh_nats_go.Go.Map.{get}
use service_mesh_nats_go.Go.Unordered.{Entries, ReadsAs, GoMap, no_entries, read}
use mathlib.Core.Option as Options
use service_mesh_nats_go.Target.{merge_settings}
use service_mesh_nats_go.Target.Settings.{get-merge_settings}
use mathlib.Core.Quot
use mathlib.Core.Quot.{Quot, Quot-set}
use mathlib.Mathlib.Data.Quot as Quotients

merge_entries : Entries String → Entries String → Entries String
merge_entries (a, x) (b, y) = (merge_settings a b, (get-merge_settings a b "" x y).1)

get-merge_entries :
    (a b : Entries String) (k : String)
    → get (merge_entries a b).0 k ≡ or_else (get b.0 k) (get a.0 k)
unfolding merge_entries
get-merge_entries (a, x) (b, y) k = (get-merge_settings a b k x y).0

-- mergeSettings, whatever the order in which Go visits the entries.
pub merged : GoMap String → GoMap String → GoMap String
merged =
    Quotients.lift₂ Quot-set (λ a b. Quot.mk (merge_entries a b))
      (λ a b c h. Quot.sound (λ k. simp (get-merge_entries, h k)))
      (λ a b c h. Quot.sound (λ k. simp (get-merge_entries, h k)))

-- A setting of the merged map.
pub read-merged :
    (V-set : IsSet String) (a b : GoMap String) (k : String)
    → read V-set k (merged a b) ≡ or_else (read V-set k b) (read V-set k a)
unfolding merged read
read-merged V-set a b k =
    Quotients.induction_on₂
      {δ = λ q r. read V-set k (merged q r) ≡ or_else (read V-set k r) (read V-set k q)}
      (λ q r. Options.is_set V-set _ _) a b (λ m n. get-merge_entries m n k)

or_else_assoc {ℓ} :
    {A : Type ℓ} (a b c : Option A) → or_else a (or_else b c) ≡ or_else (or_else a b) c
or_else_assoc a b c = ground arith

or_else_again {ℓ} : {A : Type ℓ} (a b : Option A) → or_else (or_else a b) a ≡ or_else a b
or_else_again a b = ground arith

or_else-none {ℓ} : {A : Type ℓ} (a : Option A) → or_else a none ≡ a
or_else-none a = ground arith

ReadsAs-merged :
    (a b c : Entries String)
    → ReadsAs (merge_entries a (merge_entries b c)) (merge_entries (merge_entries a b) c)
      × ReadsAs (merge_entries ([], tt) a) a
      × ReadsAs (merge_entries a ([], tt)) a
      × ReadsAs (merge_entries a (merge_entries b a)) (merge_entries b a)
unfolding get
ReadsAs-merged a b c = (
  λ k. simp get-merge_entries (sym (or_else_assoc (get c.0 k) (get b.0 k) (get a.0 k))),
  λ k. get-merge_entries ([], tt) a k ∙ or_else-none (get a.0 k),
  λ k. get-merge_entries a ([], tt) k,
  λ k. simp get-merge_entries (or_else_again (get a.0 k) (get b.0 k)),
)

-- On maps without an order of their entries, mergeSettings is well defined and associative, an
-- empty map changes nothing on either side, and merging settings below a map that has them already
-- changes nothing, so merging twice is merging once.
pub merged-laws :
    (a b c : GoMap String)
    → (merged a (merged b c) ≡ merged (merged a b) c)
      × (merged no_entries a ≡ a)
      × (merged a no_entries ≡ a)
      × (merged a (merged b a) ≡ merged b a)
unfolding merged
merged-laws a b c =
    Quotients.induction_on₃
      {δ = λ q r s.
        (merged q (merged r s) ≡ merged (merged q r) s)
        × (merged no_entries q ≡ q)
        × (merged q no_entries ≡ q)
        × (merged q (merged r q) ≡ merged r q)}
      (λ q r s. hlevel Quot-set) a b c
      (λ x y z.
        let (assoc, left, right, again) = ReadsAs-merged x y z in
        (Quot.sound assoc, Quot.sound left, Quot.sound right, Quot.sound again))
