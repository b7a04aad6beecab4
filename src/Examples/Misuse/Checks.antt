-- ===== src/Examples/Misuse/Checks.antt =====
-- The checks of Request and Publish, of which each refuses a call with an error that is reported as
-- misuse.
use service_mesh_nats_go.Prelude.{
  ℕ, suc, String, Bool, true, false, ◌≡◌, ◌⊎◌, refl, inl, inr, List, [], ◌∷◌, Option, none, some,
  ◌==◌, if◌then◌else◌,
}
use service_mesh_nats_go.Prelude.Int.{ℤ, pos, leb_ℤ}
use service_mesh_nats_go.Go.Platform.{Platform}
use service_mesh_nats_go.Go.Duration.{parse_duration}
use service_mesh_nats_go.Go.Map.{Map, get}
use service_mesh_nats_go.Mesh.{Kind, Target, kind_eq}
use service_mesh_nats_go.Errors.{
  SegmentFault, Detail, bad_setting, bad_segment, wrong_kind, no_segments, kind_mismatch,
  invalid_target, bad_config, Error, sentinel, wrapped, is, Result, ok, err, or_fail, guard, ◌>>=◌,
  ◌>>◌,
}
use service_mesh_nats_go.Errors
use service_mesh_nats_go.Target.{check_segment, check_segments, assemble, check_kind, subject}
use service_mesh_nats_go.Config.{stream_key, duration_setting, positive, bad_value}
use service_mesh_nats_go.Client.{Client, check_open}
use service_mesh_nats_go.Examples.Reports.{misuse, report}

-- An error that is reported as misuse, or that of a closed client.
abbrev pub IsRefusal : Client → Error → Type 0
IsRefusal c e = (report e ≡ misuse e) ⊎ ((c.closed ≡ true) × (e ≡ sentinel Errors.closed))

abbrev pub Refuses {ℓ} : {A : Type ℓ} → Client → Result A → Type 0
Refuses c (ok a) = Unit
Refuses c (err e) = IsRefusal c e

pub Refuses->>= {ℓ κ} :
    {A : Type ℓ} {B : Type κ} (c : Client) (m : Result A) (rest : A → Result B)
    → Refuses c m
    → ((a : A) → Refuses c (rest a))
    → Refuses c (m >>= rest)
Refuses->>= c (ok a) rest h k = k a
Refuses->>= c (err e) rest h k = h

pub check_kind-Refuses :
    (c : Client) (t : Target) (want : Kind) (name : String)
    → Refuses c (guard (check_kind t want name))
unfolding check_kind report
check_kind-Refuses c t want name = by_test (kind_eq t.kind want)
  where
    by_test :
        (b : Bool)
        → Refuses c
            (guard (if b then none else some (wrapped kind_mismatch (wrong_kind name want t.kind))))
    by_test true = tt
    by_test false = inl refl

pub check_segments-Refuses :
    (c : Client) (wide : ℕ → Bool) (i : ℕ) (segs : List String)
    → Refuses c (guard (check_segments wide i segs))
unfolding check_segments report
check_segments-Refuses c wide i [] = tt
check_segments-Refuses c wide i (seg ∷ segs) =
    by_fault (check_segments-Refuses c wide (suc i) segs) (check_segment wide seg)
  where
    by_fault :
        Refuses c (guard (check_segments wide (suc i) segs))
        → (o : Option SegmentFault)
        → Refuses c (
            guard (elim o [
              | none ↦ check_segments wide (suc i) segs
              | some fault ↦ some (wrapped invalid_target (bad_segment i seg fault))
            ]))
    by_fault later none = later
    by_fault later (some fault) = inl refl

pub or_fail-Refuses {ℓ} :
    {A : Type ℓ} (c : Client) (o : Option Error) (a : A)
    → Refuses c (guard o)
    → Refuses c (or_fail o a)
or_fail-Refuses c none a h = tt
or_fail-Refuses c (some e) a h = h

pub subject-Refuses : (c : Client) (go : Platform) (t : Target) → Refuses c (subject go t)
unfolding subject assemble report
subject-Refuses c go t = by_segments t.segments
  where
    by_segments : (segs : List String) → Refuses c (assemble go.wide_print segs)
    by_segments [] = inl refl
    by_segments (seg ∷ segs) =
        or_fail-Refuses c (check_segments go.wide_print 0 (seg ∷ segs)) _
          (check_segments-Refuses c go.wide_print 0 (seg ∷ segs))

pub check_open-Refuses : (c : Client) → Refuses c (guard (check_open c))
unfolding check_open
check_open-Refuses c = by_test c.closed refl
  where
    by_test :
        (b : Bool)
        → c.closed ≡ b
        → Refuses c (guard (if b then some (sentinel Errors.closed) else none))
    by_test true h = inr (h, refl)
    by_test false h = tt

pub positive-Refuses : (c : Client) (key v : String) (o : Option ℤ) → Refuses c (positive key v o)
unfolding report
positive-Refuses c key v none = inl refl
positive-Refuses c key v (some d) = by_test (leb_ℤ d (pos 0))
  where
    by_test : (b : Bool) → Refuses c (if b then bad_value key v else ok d)
    by_test true = inl refl
    by_test false = tt

pub duration_setting-Refuses :
    (c : Client) (go : Platform) (cfg : Map String) (key : String) (fallback : ℤ)
    → Refuses c (duration_setting go cfg key fallback)
unfolding duration_setting
duration_setting-Refuses c go cfg key fallback = by_value (get cfg key)
  where
    by_value :
        (o : Option String)
        → Refuses c (elim o [ none ↦ ok fallback | some v ↦ positive key v (parse_duration go v) ])
    by_value none = tt
    by_value (some v) = positive-Refuses c key v (parse_duration go v)

pub no_stream-Refuses :
    (c : Client) (v : String)
    → Refuses c
        (guard (if v == "" then none else some (wrapped bad_config (bad_setting stream_key v))))
unfolding report
no_stream-Refuses c v = by_test (v == "")
  where
    by_test :
        (b : Bool)
        → Refuses c
            (guard (if b then none else some (wrapped bad_config (bad_setting stream_key v))))
    by_test true = tt
    by_test false = inl refl
