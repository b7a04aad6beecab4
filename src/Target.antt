-- ===== src/Target.antt =====
-- nats/target.go: subjects, kinds, queue groups and settings.
pub mod Subject
pub mod Settings
pub mod Merged
use service_mesh_nats_go.Prelude.{
  ℕ, suc, String, Char, code, Bool, ◌||◌, not, List, [], ◌∷◌, Option, none, some, ◌==◌, eqb,
  if◌then◌else◌,
}
use service_mesh_nats_go.Go.Platform.{Platform}
use service_mesh_nats_go.Go.Text.{is_blank, is_space, is_print, join}
use service_mesh_nats_go.Go.Map.{Map, put_all}
use service_mesh_nats_go.Mesh.{Kind, Target, Contract, kind_eq}
use service_mesh_nats_go.Errors.{
  SegmentFault, contains_dot, contains_whitespace, contains_non_printable, contains_wildcard,
  no_segments, bad_segment, wrong_kind, Error, wrapped, kind_mismatch, invalid_target, Result, ok,
  err, or_fail, guard, ◌>>=◌, ◌>>◌,
}

-- The loop of checkSegment over the characters.
unfoldable pub check_characters : (ℕ → Bool) → String → Option SegmentFault
check_characters wide String.[] = none
check_characters wide (String.◌∷◌ ch seg) =
    let c = code ch in
    let rest = check_characters wide seg in
    if eqb c b'.'
    then some contains_dot
    else if eqb c b'*' || eqb c b'>'
    then some (contains_wildcard c)
    else if is_space c
    then some contains_whitespace
    else if not (is_print wide c)
    then some contains_non_printable
    else rest

unfoldable pub check_segment : (ℕ → Bool) → String → Option SegmentFault
unfolding check_characters
check_segment wide seg = if is_blank seg then some SegmentFault.empty else check_characters wide seg

-- The loop of subject, from segment `i` on.
unfoldable pub check_segments : (ℕ → Bool) → ℕ → List String → Option Error
unfolding check_segment
check_segments wide i [] = none
check_segments wide i (seg ∷ segs) = elim (check_segment wide seg) [
  | none ↦ check_segments wide (suc i) segs
  | some fault ↦ some (wrapped invalid_target (bad_segment i seg fault))
]

unfoldable pub assemble : (ℕ → Bool) → List String → Result String
assemble wide [] = err (wrapped invalid_target no_segments)
assemble wide (seg ∷ segs) = or_fail (check_segments wide 0 (seg ∷ segs)) (join "." (seg ∷ segs))

unfoldable pub subject : Platform → Target → Result String
unfolding assemble
subject go t = assemble go.wide_print t.segments

unfoldable pub check_kind : Target → Kind → String → Option Error
check_kind t want use_name =
    if kind_eq t.kind want
    then none
    else some (wrapped kind_mismatch (wrong_kind use_name want t.kind))

unfoldable pub consumer_group : Contract → String → String → String
consumer_group mesh group deployment_group =
    if group == ""
    then deployment_group
    else if group == mesh.consumer_group_none
    then ""
    else group

-- The fields of `subscription` that prepareSubscription fills.
pub record Prepared : Type 0 where
  pub subject : String
  pub queue : String
  pub target : Target

unfoldable pub prepare_subscription :
    Platform → Contract → Target → Kind → String → String → String → Result Prepared
unfolding check_kind subject consumer_group
prepare_subscription go mesh t want use_name group deployment_group = do
  guard (check_kind t want use_name)
  subj ← subject go t
  ok (record { subject = subj; queue = consumer_group mesh group deployment_group; target = t })

unfoldable pub merge_settings : Map String → Map String → Map String
unfolding put_all
merge_settings target over = put_all (put_all [] target) over
