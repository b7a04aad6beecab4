-- ===== src/Runbooks/Flags.antt =====
-- The flags of docs/runbooks/cmd/send/main.go and docs/runbooks/cmd/serve/main.go: pairs, which
-- collects repeated key=value flags, and the target that the flags name.
pub mod Pairs
use service_mesh_nats_go.Prelude.{
  ℕ, String, Char, code, Bool, true, false, not, ◌&&◌, ◌≡◌, refl, sym, ap, ◌∙◌, List, [], ◌∷◌,
  Option, none, some, or_else, eqb, eq_iff, ◌==◌, if◌then◌else◌, arith,
}
use service_mesh_nats_go.Go.Text.{append, split}
use service_mesh_nats_go.Go.Map.{Map, get, put, get-put}
use service_mesh_nats_go.Mesh.{route, topic, Target}
use service_mesh_nats_go.Config.{url_key}

-- The code point of '='
abbrev equals : ℕ
equals = 0x3d

abbrev pub before_cut : Char → Option (String × String) → Option (String × String)
before_cut c none = none
before_cut c (some (k, v)) = some (String.◌∷◌ c k, v)

-- strings.Cut(v, "=")
unfoldable pub cut : String → Option (String × String)
cut String.[] = none
cut (String.◌∷◌ c s) =
    let rest = cut s in if eqb (code c) equals then some ("", s) else before_cut c rest

abbrev pub set_cut : Map String → Option (String × String) → Option (Map String)
set_cut p none = none
set_cut p (some (k, v)) = some (put p k v)

-- Set of pairs; `none` is its error.
unfoldable pub set_pair : Map String → String → Option (Map String)
unfolding cut
set_pair p v = set_cut p (cut v)

abbrev pub and_then_pairs :
    Option (Map String) → (Map String → Option (Map String)) → Option (Map String)
and_then_pairs none rest = none
and_then_pairs (some p) rest = rest p

-- Every occurrence of one flag, in the order of the command line.
unfoldable pub set_pairs : Map String → List String → Option (Map String)
unfolding set_pair
set_pairs p [] = some p
set_pairs p (v ∷ vs) = and_then_pairs (set_pair p v) (λ q. set_pairs q vs)

-- The target of -kind and -subject.
unfoldable pub flag_target : String → String → Map String → Target
unfolding split
flag_target kind subj metadata = record {
  segments = split 0x2e subj;
  kind = if kind == "route" then route else topic;
  metadata = metadata;
}

-- NATS_URL overrides the url of -cfg, unless it is empty.
unfoldable pub with_url : Map String → String → Map String
with_url cfg url = if url == "" then cfg else put cfg url_key url
