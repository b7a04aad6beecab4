-- ===== src/Tests/Targets.antt =====
-- Subjects, queue groups and merged settings of concrete targets.
use service_mesh_nats_go.Prelude.{◌≡◌, ◌≢◌, ◌↔◌, refl, [], ◌∷◌, All}
use service_mesh_nats_go.Go.Duration.{exact}
use service_mesh_nats_go.Go.Text.{join, split, is_space, is_print}
use service_mesh_nats_go.Mesh.{Target, route}
use service_mesh_nats_go.Errors.{contains_wildcard, bad_segment, wrapped, invalid_target, ok, err}
use service_mesh_nats_go.Target.{subject, Prepared, prepare_subscription, check_segments}
use service_mesh_nats_go.Target.Subject.{IsSegment, subject-ok_iff, split-subject}
use service_mesh_nats_go.Tests.Fixtures.{contract, create_order}

subject-ok_iff_example : (subject exact create_order ≡ ok "orders.create") ↔ (
    (create_order.segments ≢ [])
    × All (IsSegment exact.wide_print) create_order.segments
    × ("orders.create" ≡ join "." create_order.segments))
subject-ok_iff_example = subject-ok_iff exact create_order "orders.create"

create_order_subject : subject exact create_order ≡ ok "orders.create"
unfolding subject join check_segments is_space is_print
create_order_subject = refl

split-subject_example : split b'.' "orders.create" ≡ "orders" ∷ "create" ∷ []
split-subject_example = split-subject exact create_order "orders.create" create_order_subject

abbrev wild : Target
wild = record { segments = "orders" ∷ "a*b" ∷ []; kind = route; metadata = [] }

wild_subject :
    subject exact wild ≡ err (wrapped invalid_target (bad_segment 1 "a*b" (contains_wildcard b'*')))
unfolding subject check_segments is_space is_print
wild_subject = refl

abbrev prepared : Prepared
prepared = record { subject = "orders.create"; queue = "billing"; target = create_order }

create_order-prepared :
    prepare_subscription exact contract create_order route "Endpoint" "" "billing" ≡ ok prepared
unfolding prepare_subscription join check_segments is_space is_print
create_order-prepared = refl
