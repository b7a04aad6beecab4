-- ===== src/Target/Settings.antt =====
-- Settings in their order of precedence, and consumer groups.
use service_mesh_nats_go.Prelude.{
  String, ◌≡◌, ◌≢◌, ◌↔◌, ◌∙◌, refl, none, or_else, arith, eq_iff, [],
}
use service_mesh_nats_go.Go.Map.{Map, IsMap, get, put_all, get-put_all, put_all-IsMap}
use service_mesh_nats_go.Go.Platform.{Platform}
use service_mesh_nats_go.Mesh.{Kind, Target, Contract, IsLawful}
use service_mesh_nats_go.Errors.{ok, guard, >>=-eq-ok, ok-injective}
use service_mesh_nats_go.Target.{
  check_kind, subject, consumer_group, Prepared, prepare_subscription, merge_settings,
}
use mathlib.Core.Path.{subst}

put_all-nil :
    (m : Map String) (j : String) → IsMap m → get (put_all [] m) j ≡ or_else (get m j) none
unfolding get
put_all-nil m j h = get-put_all [] m j h

-- A merged setting is the overriding value, or else the target's, whatever the order in which Go
-- visits the entries, and the merged settings are a map again.
pub get-merge_settings :
    (target over : Map String) (j : String)
    → IsMap target
    → IsMap over
    → (get (merge_settings target over) j ≡ or_else (get over j) (get target j))
      × IsMap (merge_settings target over)
unfolding merge_settings
get-merge_settings target over j t o = (
  get-put_all (put_all [] target) over j o ∙ rw (put_all-nil target j t) (ground arith),
  put_all-IsMap (put_all [] target) over (put_all-IsMap [] target tt),
)

-- Where the deployment group is not empty: a subscription is plain, without a queue group, exactly
-- when its own group is that of no group; an empty one takes the deployment group, and any other is
-- kept.
pub consumer_group-branches :
    (mesh : Contract) (group deployment : String)
    → IsLawful mesh
    → deployment ≢ ""
    → ((consumer_group mesh group deployment ≡ "") ↔ (group ≡ mesh.consumer_group_none))
      × (group ≡ "" → consumer_group mesh group deployment ≡ deployment)
      × (group ≢ ""
          → group ≢ mesh.consumer_group_none
          → consumer_group mesh group deployment ≡ group)
unfolding consumer_group
consumer_group-branches mesh group deployment law n = (
  (
    λ e. ground (arith, eq_iff group "", eq_iff group mesh.consumer_group_none),
    λ e. ground (arith, law.none_is_named, eq_iff group "", eq_iff group mesh.consumer_group_none),
  ),
  λ e. ground (arith, eq_iff group ""),
  λ a b. ground (arith, eq_iff group "", eq_iff group mesh.consumer_group_none),
)

check_kind-ok :
    (t : Target) (want : Kind) (name : String) (u : Unit {0})
    → guard (check_kind t want name) ≡ ok u
    → t.kind ≡ want
unfolding check_kind
check_kind-ok t want name u h = ground arith

-- A subscription that is prepared has a target of the wanted kind, that target's subject, and the
-- queue group that its own group and the deployment group resolve to.
pub prepare_subscription-ok :
    (go : Platform) (mesh : Contract) (t : Target) (want : Kind) (name group deployment : String)
    (p : Prepared)
    → prepare_subscription go mesh t want name group deployment ≡ ok p
    → (t.kind ≡ want)
      × (subject go t ≡ ok p.subject)
      × (p.queue ≡ consumer_group mesh group deployment)
      × (p.target ≡ t)
unfolding prepare_subscription
prepare_subscription-ok go mesh t want name group deployment p h =
    let (u, eu, hu) = >>=-eq-ok (guard (check_kind t want name)) _ h in
    let (s, es, hs) = >>=-eq-ok (subject go t) _ hu in
    subst
      (λ (q : Prepared).
        (t.kind ≡ want)
        × (subject go t ≡ ok q.subject)
        × (q.queue ≡ consumer_group mesh group deployment)
        × (q.target ≡ t))
      (ok-injective hs) (check_kind-ok t want name u eu, es, refl, refl)
