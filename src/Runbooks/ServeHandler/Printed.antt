-- ===== src/Runbooks/ServeHandler/Printed.antt =====
-- What the command serve prints of a message's metadata.
use service_mesh_nats_go.Prelude.{
  String, Bool, false, ◌||◌, ◌≡◌, ◌↔◌, ◌∙◌, refl, sym, ap, List, [], ◌∷◌, map, Option, none, some,
  is_some, ◌==◌, eq_iff, if◌then◌else◌, arith,
}
use mathlib.Core.Path.{fun_ext}
use service_mesh_nats_go.Prelude.Int.{ℤ}
use service_mesh_nats_go.Go.Platform.{Platform}
use service_mesh_nats_go.Go.Sort.{insert_text, sort_texts}
use service_mesh_nats_go.Go.Map.{Map, get}
use service_mesh_nats_go.Go.Unordered.{Entries, ReadsAs}
use service_mesh_nats_go.Go.SortedKeys.{keys, sorted_keys, sorted_keys-same}
use service_mesh_nats_go.Mesh.{Target, Payload}
use service_mesh_nats_go.Config.{text_of}
use service_mesh_nats_go.Runbooks.ServeHandler.{
  PrintedMessage, sorted_metadata, printed_deadline, print_message,
}

abbrev holds : List String → String → Bool
holds [] j = false
holds (k ∷ ks) j = k == j || holds ks j

holds-insert_text :
    (a : String) (ks : List String) (j : String) → holds (insert_text a ks) j ≡ holds (a ∷ ks) j
unfolding insert_text
holds-insert_text a [] j = refl
holds-insert_text a (k ∷ ks) j = ground (arith, holds-insert_text a ks j)

holds-sort_texts : (ks : List String) (j : String) → holds (sort_texts ks) j ≡ holds ks j
unfolding sort_texts
holds-sort_texts [] j = refl
holds-sort_texts (k ∷ ks) j =
    holds-insert_text k (sort_texts ks) j ∙ ap (λ b. k == j || b) (holds-sort_texts ks j)

holds-keys : (m : Map String) (j : String) → holds (keys m) j ≡ is_some (get m j)
unfolding get
holds-keys [] j = refl
holds-keys ((k, v) ∷ m) j = ground (arith, holds-keys m j)

get-tabulated :
    (f : String → String) (ks : List String) (j : String)
    → get (map (λ k. (k, f k)) ks) j ≡ (if holds ks j then some (f j) else none)
unfolding get
get-tabulated f [] j = refl
get-tabulated f (k ∷ ks) j = ground (arith, get-tabulated f ks j, eq_iff k j, ap f)

-- The printed metadata hold each key with its value, and no other.
pub get-sorted_metadata : (m : Map String) (j : String) → get (sorted_metadata m) j ≡ get m j
unfolding sorted_metadata sorted_keys text_of
get-sorted_metadata m j =
    get-tabulated (λ k. text_of (get m k)) (sort_texts (keys m)) j
    ∙ ap (λ b. if b then some (text_of (get m j)) else none)
        (holds-sort_texts (keys m) j ∙ holds-keys m j)
    ∙ again (get m j)
  where
    again : (o : Option String) → (if is_some o then some (text_of o) else none) ≡ o
    again none = refl
    again (some v) = refl

sorted_metadata-same :
    (m n : Entries String) → ReadsAs m n → sorted_metadata m.0 ≡ sorted_metadata n.0
unfolding sorted_metadata
sorted_metadata-same (m, hm) (n, hn) r =
    ap (λ ks. map (λ k. (k, text_of (get m k))) ks) (sorted_keys-same m n hm hn r)
    ∙ ap (λ (g : String → Option String). map (λ k. (k, text_of (g k))) (sorted_keys n)) (fun_ext r)

-- The command prints the same of two messages that differ in their metadata only exactly when every
-- key reads the same in both: the order in which Go visits the entries changes nothing of what is
-- printed, and nothing of the metadata is lost.
pub print_message-ReadsAs :
    (go : Platform) (now number : ℤ) (d : Option ℤ) (target : Target) (payload : Payload)
    (m n : Entries String)
    → let printed : Entries String → PrintedMessage = λ x.
      print_message go now number d
        (record { target = target; metadata = some x.0; payload = payload }) in
      (printed m ≡ printed n) ↔ ReadsAs m n
unfolding print_message
print_message-ReadsAs go now number d target payload m n = (
  λ e k.
      sym (get-sorted_metadata m.0 k)
      ∙ ap (λ (x : PrintedMessage). get x.metadata k) e
      ∙ get-sorted_metadata n.0 k,
  λ r.
      ap
        (λ (x : List (String × String)).
          let p : PrintedMessage = record {
            number = number;
            payload = payload;
            metadata = x;
            deadline = printed_deadline go now d;
          } in
          p)
        (sorted_metadata-same m n r),
)
