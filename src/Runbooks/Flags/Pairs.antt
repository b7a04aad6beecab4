-- ===== src/Runbooks/Flags/Pairs.antt =====
-- What a map of repeated flags holds.
use service_mesh_nats_go.Prelude.{
  String, code, Bool, true, false, ◌&&◌, ◌≡◌, refl, sym, ap, ◌∙◌, List, [], ◌∷◌, Option, none, some,
  or_else, is_some, eqb, ◌==◌, if◌then◌else◌, arith,
}
use service_mesh_nats_go.Go.Text.{append}
use service_mesh_nats_go.Go.Map.{Map, get, put, get-put}
use service_mesh_nats_go.Runbooks.Flags.{
  equals, before_cut, cut, set_cut, set_pair, and_then_pairs, set_pairs,
}

-- What one flag says of a key.
abbrev pub value_in : Option (String × String) → String → Option String
value_in none k = none
value_in (some (j, v)) k = if j == k then some v else none

-- What the last flag of a key says.
pub last_value : List String → String → Option String
last_value [] k = none
last_value (v ∷ vs) k = or_else (last_value vs k) (value_in (cut v) k)

-- Does every flag have its '='?
pub all_cut : List String → Bool
all_cut [] = true
all_cut (v ∷ vs) = is_some (cut v) && all_cut vs

pub has_equals : String → Bool
has_equals String.[] = false
has_equals (String.◌∷◌ c s) = let rest = has_equals s in if eqb (code c) equals then true else rest

-- A flag is cut at its first '=', so a key has none and a value may have more.
pub cut-append :
    (k v : String) → has_equals k ≡ false → cut (append k (String.◌∷◌ "=" v)) ≡ some (k, v)
unfolding cut append has_equals
cut-append String.[] v h = refl
cut-append (String.◌∷◌ c k) v h =
    let (first, rest) = parts h in
    ap
      (λ b.
        if b
        then some ("", append k (String.◌∷◌ "=" v))
        else before_cut c (cut (append k (String.◌∷◌ "=" v))))
      first
    ∙ ap (before_cut c) (cut-append k v rest)
  where
    parts : {a b : Bool} → (if a then true else b) ≡ false → (a ≡ false) × (b ≡ false)
    parts e = ground arith

-- What the flags make of a map.
pub record IsCollected (p : Map String) (vs : List String) (collected : Option (Map String))
    : Type 0 where
  pub accepted : is_some collected ≡ all_cut vs
  pub values :
      (m : Map String)
      → collected ≡ some m
      → (k : String) → get m k ≡ or_else (last_value vs k) (get p k)

IsCollected-cut :
    (p : Map String) (v : String) (vs : List String) (o : Option (String × String))
    → cut v ≡ o
    → ((q : Map String) → IsCollected q vs (set_pairs q vs))
    → IsCollected p (v ∷ vs) (and_then_pairs (set_cut p o) (λ q. set_pairs q vs))
unfolding last_value all_cut
IsCollected-cut p v vs none e rest = record {
  accepted = ap (λ o. is_some o && all_cut vs) (sym e);
  values = λ m f k. cc;
}
IsCollected-cut p v vs (some (j, w)) e rest =
    let r = rest (put p j w) in
    record {
      accepted = r.accepted ∙ ap (λ o. is_some o && all_cut vs) (sym e);
      values = λ m f k.
          overrides (last_value vs k) (get p k) w (j == k)
            (r.values m f k ∙ ap (or_else (last_value vs k)) (get-put p j k w))
          ∙ ap (λ o. or_else (or_else (last_value vs k) (value_in o k)) (get p k)) (sym e);
    }
  where
    overrides :
        {a : Option String} (b c : Option String) (w : String) (same : Bool)
        → a ≡ or_else b (if same then some w else c)
        → a ≡ or_else (or_else b (if same then some w else none)) c
    overrides b c w same e = ground (arith, e)

-- The flags are refused exactly when one of them has no '='. If they are taken, each key has the
-- value that its last flag gives it, and the value from before where it has no flag.
pub set_pairs-IsCollected : (p : Map String) (vs : List String) → IsCollected p vs (set_pairs p vs)
unfolding set_pairs set_pair last_value all_cut
set_pairs-IsCollected p [] = record {
  accepted = refl;
  values = λ m e k. ap (λ o. taken o k) (sym e);
}
  where
    taken : Option (Map String) → String → Option String
    taken none k = none
    taken (some m) k = get m k
set_pairs-IsCollected p (v ∷ vs) =
    IsCollected-cut p v vs (cut v) refl (λ q. set_pairs-IsCollected q vs)
