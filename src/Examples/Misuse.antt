-- ===== src/Examples/Misuse.antt =====
-- What examples/client/main.go reports of a call that is refused before anything is sent.
pub mod Checks
use service_mesh_nats_go.Prelude.{
  String, Bool, true, false, ◌≡◌, ◌⊎◌, refl, inl, inr, [], ◌==◌, if◌then◌else◌,
}
use mathlib.Core.Path.{subst}
use service_mesh_nats_go.Prelude.Int.{ℤ}
use service_mesh_nats_go.Go.Platform.{Platform}
use service_mesh_nats_go.Go.Map.{Map, get}
use service_mesh_nats_go.Mesh.{route, topic, Message, Contract}
use service_mesh_nats_go.Errors.{Error, is, Result, ok, err, guard}
use service_mesh_nats_go.Errors
use service_mesh_nats_go.Header.{returned}
use service_mesh_nats_go.Target.{check_kind, subject, merge_settings}
use service_mesh_nats_go.Config.{stream_key, request_timeout_key, duration_setting, text_of}
use service_mesh_nats_go.Client.{
  Client, Network, Call, check_open, prepare_request, prepare_publish, request, publish,
}
use service_mesh_nats_go.Examples.Reports.{misuse}
use service_mesh_nats_go.Examples.Client.{background}
use service_mesh_nats_go.Examples.Misuse.Checks.{
  IsRefusal, Refuses, Refuses->>=, check_kind-Refuses, check_segments-Refuses, or_fail-Refuses,
  subject-Refuses, check_open-Refuses, positive-Refuses, duration_setting-Refuses,
  no_stream-Refuses,
}

prepare_request-Refuses :
    (go : Platform) (c : Client) (msg : Message) (opts : Map String)
    → Refuses c (prepare_request go c msg opts)
unfolding prepare_request
prepare_request-Refuses go c msg opts =
    let settings = merge_settings msg.target.metadata opts in
    Refuses->>= c (guard (check_kind msg.target route "Request")) _
      (check_kind-Refuses c msg.target route "Request")
      (λ k. Refuses->>= c (subject go msg.target) _ (subject-Refuses c go msg.target) (λ s.
        Refuses->>= c _ _ (no_stream-Refuses c (text_of (get settings stream_key))) (λ v.
          Refuses->>= c (duration_setting go settings request_timeout_key c.request_timeout) _
            (duration_setting-Refuses c go settings request_timeout_key c.request_timeout)
            (λ t. Refuses->>= c (guard (check_open c)) _ (check_open-Refuses c) (λ o. tt)))))

prepare_publish-Refuses :
    (go : Platform) (c : Client) (msg : Message) (opts : Map String)
    → Refuses c (prepare_publish go c background msg opts)
unfolding prepare_publish
prepare_publish-Refuses go c msg opts =
    let settings = merge_settings msg.target.metadata opts in
    let stream = text_of (get settings stream_key) in
    Refuses->>= c (guard (check_kind msg.target topic "Publish")) _
      (check_kind-Refuses c msg.target topic "Publish")
      (λ k. Refuses->>= c (subject go msg.target) _ (subject-Refuses c go msg.target) (λ s.
        Refuses->>= c
          (if stream == ""
            then ok c.request_timeout
            else duration_setting go settings request_timeout_key c.request_timeout)
          _ (timeout stream)
          (λ t. Refuses->>= c (guard (check_open c)) _ (check_open-Refuses c) (λ o. tt))))
  where
    timeout :
        (stream : String)
        → Refuses c (
            if stream == ""
            then ok c.request_timeout
            else duration_setting go
                (merge_settings msg.target.metadata opts)
                request_timeout_key
                c.request_timeout)
    timeout stream = by_test (stream == "")
      where
        by_test :
            (b : Bool)
            → Refuses c (
                if b
                then ok c.request_timeout
                else duration_setting go
                    (merge_settings msg.target.metadata opts)
                    request_timeout_key
                    c.request_timeout)
        by_test true = tt
        by_test false = duration_setting-Refuses c go _ request_timeout_key c.request_timeout

-- A call that sends nothing and returns an error that is a refusal.
abbrev pub IsRefused {ℓ} : {A : Type ℓ} → Client → Call A → Type ℓ
IsRefused c call =
    (e : Error) × (call.sent ≡ []) × (call.outcome ≡ returned (err e)) × IsRefusal c e

module _ (go : Platform) (mesh : Contract) (net : Network) (c : Client) (now later : ℤ)
    (msg : Message) (opts : Map String) where
  request-IsRefused :
      (r : Result (String × ℤ))
      → prepare_request go c msg opts ≡ r
      → ((subj : String) × (timeout : ℤ) × (r ≡ ok (subj, timeout)))
        ⊎ IsRefused c (request go mesh net c background now later msg opts)
  unfolding request
  request-IsRefused (ok (subj, timeout)) h = inl (subj, timeout, refl)
  request-IsRefused (err e) h = inr (
    e,
    rw (h, request) refl,
    rw (h, request) refl,
    subst (Refuses c) h (prepare_request-Refuses go c msg opts),
  )

  publish-IsRefused :
      (r : Result (String × String × ℤ))
      → prepare_publish go c background msg opts ≡ r
      → ((checked : String × String × ℤ) × (r ≡ ok checked))
        ⊎ IsRefused c (publish go mesh net c background now later msg opts)
  unfolding publish
  publish-IsRefused (ok checked) h = inl (checked, refl)
  publish-IsRefused (err e) h = inr (
    e,
    rw (h, publish) refl,
    rw (h, publish) refl,
    subst (Refuses c) h (prepare_publish-Refuses go c msg opts),
  )

-- A request or a publish without a deadline passes the client's checks, or it sends nothing and
-- returns an error. The example's client reports every such error as misuse of the contract, but
-- the error of a client that is closed.
pub calls-IsRefused :
    (go : Platform) (mesh : Contract) (net : Network) (c : Client) (now later : ℤ) (msg : Message)
    (opts : Map String)
    → (((subj : String) × (timeout : ℤ) × (prepare_request go c msg opts ≡ ok (subj, timeout)))
        ⊎ IsRefused c (request go mesh net c background now later msg opts))
      × (((checked : String × String × ℤ) × (prepare_publish go c background msg opts ≡ ok checked))
          ⊎ IsRefused c (publish go mesh net c background now later msg opts))
calls-IsRefused go mesh net c now later msg opts = (
  request-IsRefused go mesh net c now later msg opts (prepare_request go c msg opts) refl,
  publish-IsRefused go mesh net c now later msg opts (prepare_publish go c background msg opts)
      refl,
)
