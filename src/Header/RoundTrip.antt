-- ===== src/Header/RoundTrip.antt =====
-- Metadata survives the way through a header, and the two message id keys are one field.
use service_mesh_nats_go.Prelude.{
  String, ◌≡◌, ◌∙◌, refl, sym, ap, List, [], ◌∷◌, Option, none, some, arith, ◌==◌, eq_iff,
  if◌then◌else◌, or_else, eq_refl,
}
use mathlib.Core.Path.{subst}
use service_mesh_nats_go.Go.Map.{Map, IsMap, entries, get, put, get-put}
use service_mesh_nats_go.Mesh.{Contract, IsLawful, Header}
use service_mesh_nats_go.Header.{
  returned, set_all, to_header, first_values, from_header, set_id, outgoing_header, copy_id,
  incoming_metadata,
}

-- The values of a key that holds one value, and the first of several.
abbrev pub single : Option String → Option (List String)
single none = none
single (some v) = some (v ∷ [])

abbrev pub first : Option (List String) → Option String
first none = none
first (some []) = none
first (some (v ∷ vs)) = some v

get-first_values :
    (md : Map String) (h : Header) (j : String)
    → IsMap h
    → get (first_values md h) j ≡ or_else (first (get h j)) (get md j)
unfolding first_values get
get-first_values md [] j m = refl
get-first_values md ((k, []) ∷ h) j m = ground (arith, get-first_values md h j m.1, eq_iff k j)
get-first_values md ((k, v ∷ vs) ∷ h) j m =
    ground (arith, get-first_values (put md k v) h j m.1, get-put md k j v, eq_iff k j)

or_else-none {ℓ} : {A : Type ℓ} (a : Option A) → or_else a none ≡ a
or_else-none none = refl
or_else-none (some a) = refl

get-nil {ℓ} : {V : Type ℓ} (j : String) → get {V = V} [] j ≡ none
unfolding get
get-nil j = refl

get-from_header :
    (h : Option Header) (j : String)
    → IsMap (entries h)
    → get (entries (from_header h)) j ≡ first (get (entries h) j)
unfolding from_header
get-from_header none j m = cc (get-nil {V = String} j, get-nil {V = List String} j)
get-from_header (some []) j m = cc (get-nil {V = String} j, get-nil {V = List String} j)
get-from_header (some (e ∷ h)) j m =
    get-first_values [] (e ∷ h) j m ∙ rw get-nil (or_else-none (first (get (e ∷ h) j)))

module _ (mesh : Contract) (law : IsLawful mesh) where
  get-set_all :
      (h : Header) (md : Map String) (j : String)
      → IsMap md
      → get (set_all mesh h md) j ≡ or_else (single (get md j)) (get h j)
  unfolding set_all get
  get-set_all h [] j m = refl
  get-set_all h ((k, v) ∷ md) j m =
      ground (
        arith,
        get-set_all (mesh.header_set h k v) md j m.1,
        law.get-header_set h k j v,
        eq_iff k j,
      )

  set_all-IsMap : (h : Header) (md : Map String) → IsMap h → IsMap (set_all mesh h md)
  unfolding set_all
  set_all-IsMap h [] m = m
  set_all-IsMap h ((k, v) ∷ md) m =
      set_all-IsMap (mesh.header_set h k v) md (law.header_set-IsMap h k v m)

  pub get-to_header :
      (md : Option (Map String)) (j : String)
      → IsMap (entries md)
      → get (entries (to_header mesh md)) j ≡ single (get (entries md) j)
  unfolding to_header
  get-to_header none j m = cc (get-nil {V = String} j, get-nil {V = List String} j)
  get-to_header (some []) j m = cc (get-nil {V = String} j, get-nil {V = List String} j)
  get-to_header (some (e ∷ md)) j m =
      get-set_all [] (e ∷ md) j m ∙ rw get-nil (or_else-none (single (get (e ∷ md) j)))

  to_header-IsMap : (md : Option (Map String)) → IsMap (entries (to_header mesh md))
  unfolding to_header
  to_header-IsMap none = tt
  to_header-IsMap (some []) = tt
  to_header-IsMap (some (e ∷ md)) = set_all-IsMap [] (e ∷ md) tt

  first-single : (v : Option String) → first (single v) ≡ v
  first-single none = refl
  first-single (some v) = refl

  -- What is copied into a header reads back as it was.
  pub get-from_header-to_header :
      (md : Option (Map String)) (j : String)
      → IsMap (entries md)
      → get (entries (from_header (to_header mesh md))) j ≡ get (entries md) j
  get-from_header-to_header md j m =
      get-from_header (to_header mesh md) j (to_header-IsMap md)
      ∙ ap first (get-to_header md j m)
      ∙ first-single (get (entries md) j)

  -- A header that is nil is that of no metadata, which has no id.
  outgoing_cases :
      (md : Option (Map String)) (id : Option String)
      → get (entries md) mesh.message_id_key ≡ id
      → (h : Option Header) × (set_id mesh (to_header mesh md) id ≡ returned h)
        × IsMap (entries h)
        × ((j : String)
            → IsMap (entries md)
            → get (entries h) j
              ≡ single
                  (or_else (if mesh.msg_id_header == j then id else none) (get (entries md) j)))
  unfolding set_id to_header
  outgoing_cases md none e =
      (to_header mesh md, refl, to_header-IsMap md, λ j m. ground (arith, get-to_header md j m))
  outgoing_cases none (some id) e = cc (get-nil {V = String} mesh.message_id_key)
  outgoing_cases (some []) (some id) e = cc (get-nil {V = String} mesh.message_id_key)
  outgoing_cases (some (x ∷ md)) (some id) e = (
    some (mesh.header_set (set_all mesh [] (x ∷ md)) mesh.msg_id_header id),
    refl,
    law.header_set-IsMap _ _ _ (set_all-IsMap [] (x ∷ md) tt),
    λ j m. ground (
      arith,
      law.get-header_set (set_all mesh [] (x ∷ md)) mesh.msg_id_header j id,
      get-set_all [] (x ∷ md) j m,
      get-nil {V = List String} j,
    ),
  )

  get-copy_id :
      (md : Map String) (id : Option String) (j : String)
      → get (copy_id mesh md id) j
        ≡ or_else (if mesh.message_id_key == j then id else none) (get md j)
  unfolding copy_id
  get-copy_id md none j = ground arith
  get-copy_id md (some id) j = ground (arith, get-put md mesh.message_id_key j id)

  -- A handler's metadata: what the header holds, with Nats-Msg-Id as the message id when it is
  -- there.
  pub get-incoming_metadata :
      (h : Option Header) (j : String)
      → IsMap (entries h)
      → get (incoming_metadata mesh h) j
        ≡ or_else
            (if mesh.message_id_key == j then first (get (entries h) mesh.msg_id_header) else none)
            (first (get (entries h) j))
  unfolding incoming_metadata
  get-incoming_metadata h j m = rw (
    get-copy_id (entries (from_header h)) (get (entries (from_header h)) mesh.msg_id_header) j,
    get-from_header h mesh.msg_id_header m,
    get-from_header h j m,
  )

  -- Sending never writes to a nil header. A handler receives the metadata that was sent; the
  -- message id of mesh, when there is one, is also the Nats-Msg-Id, and a Nats-Msg-Id sent without
  -- it becomes the message id.
  pub incoming-outgoing :
      (md : Option (Map String))
      → IsMap (entries md)
      → let sent = λ (j : String). get (entries md) j in
        (h : Option Header) × (outgoing_header mesh md ≡ returned h)
        × ((j : String)
            → get (incoming_metadata mesh h) j ≡ (
                if mesh.message_id_key == j
                then or_else (sent mesh.message_id_key) (sent mesh.msg_id_header)
                else if mesh.msg_id_header == j
                then or_else (sent mesh.message_id_key) (sent mesh.msg_id_header)
                else sent j))
  unfolding outgoing_header
  incoming-outgoing md m =
      let (h, e, hm, g) = outgoing_cases md (get (entries md) mesh.message_id_key) refl in
      (
        h,
        e,
        λ j.
            rw
              (
                get-incoming_metadata h j hm,
                g mesh.msg_id_header m,
                g j m,
                eq_refl mesh.msg_id_header,
              )
              (ground (
                arith,
                eq_iff mesh.message_id_key j,
                eq_iff mesh.msg_id_header j,
                ap (get (entries md)),
              )),
      )

  -- What is known of a header that is sent.
  pub outgoing_header-IsMap :
      (md : Option (Map String)) (h : Option Header)
      → outgoing_header mesh md ≡ returned h
      → IsMap (entries md)
      → IsMap (entries h)
        × ((j : String)
            → get (entries h) j
              ≡ single (
                  or_else
                    (if mesh.msg_id_header == j then get (entries md) mesh.message_id_key else none)
                    (get (entries md) j)))
  unfolding outgoing_header
  outgoing_header-IsMap md h out m =
      let (k, e, km, g) = outgoing_cases md (get (entries md) mesh.message_id_key) refl in
      subst
        (λ (x : Option Header).
          IsMap (entries x)
          × ((j : String)
              → get (entries x) j
                ≡ single (
                    or_else
                      (if mesh.msg_id_header == j
                        then get (entries md) mesh.message_id_key
                        else none)
                      (get (entries md) j))))
        (returned-injective (sym e ∙ out)) (km, λ j. g j m)
    where
      returned-injective : {a b : Option Header} → returned a ≡ returned b → a ≡ b
      returned-injective p = cc

  -- The header of a message that is sent: no write panics, and every key reads as the metadata has
  -- it, but Nats-Msg-Id is the message id when there is one.
  pub outgoing_returns :
      (md : Option (Map String))
      → IsMap (entries md)
      → (h : Option Header) × (outgoing_header mesh md ≡ returned h)
        × ((j : String)
            → get (entries h) j
              ≡ single (
                  or_else
                    (if mesh.msg_id_header == j then get (entries md) mesh.message_id_key else none)
                    (get (entries md) j)))
  unfolding outgoing_header
  outgoing_returns md m =
      let (h, e, hm, g) = outgoing_cases md (get (entries md) mesh.message_id_key) refl in
      (h, e, λ j. g j m)
