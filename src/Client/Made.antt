-- ===== src/Client/Made.antt =====
-- NewClient of nats/client.go.
use service_mesh_nats_go.Prelude.{
  ℕ, String, false, ◌≡◌, ◌⊎◌, inl, inr, refl, List, [], ◌∷◌, Option, none, some,
}
use service_mesh_nats_go.Go.Platform.{Platform}
use service_mesh_nats_go.Go.Map.{Map}
use service_mesh_nats_go.Mesh.{Contract}
use service_mesh_nats_go.Errors.{Error, Result, ok, err}
use service_mesh_nats_go.Config.{ClientSettings, ConnectOption, connect_call, parse_client_settings}
use service_mesh_nats_go.Client.{Client}

-- natsio.Connect, which returns a connection's number, and jetstream.New.
pub record Dialer : Type 0 where
  pub connect : String × List ConnectOption → Result ℕ
  pub jetstream : ℕ → Option Error

-- The result of NewClient, with the connections that it opened and those that it closed.
pub record MadeClient : Type 0 where
  pub outcome : Result Client
  pub opened : List ℕ
  pub closed : List ℕ

abbrev pub fails : Error → List ℕ → MadeClient
fails e conns = record { outcome = err e; opened = conns; closed = conns }

abbrev pub with_jetstream : ClientSettings → ℕ → Option Error → MadeClient
with_jetstream s nc (some e) = fails e (nc ∷ [])
with_jetstream s nc none = record {
  outcome = ok (record { request_timeout = s.request_timeout; closed = false; closes = 0 });
  opened = nc ∷ [];
  closed = [];
}

abbrev pub with_connection : Dialer → ClientSettings → Result ℕ → MadeClient
with_connection d s (err e) = fails e []
with_connection d s (ok nc) = with_jetstream s nc (d.jetstream nc)

abbrev pub with_settings : Dialer → Result ClientSettings → MadeClient
with_settings d (err e) = fails e []
with_settings d (ok s) = with_connection d s (d.connect (connect_call s))

unfoldable pub new_client : Platform → Contract → Dialer → Map String → MadeClient
new_client go mesh d cfg = with_settings d (parse_client_settings go mesh cfg)

-- A client that was made: how its settings were read, and that it holds the connection made with
-- them.
pub record IsConnected (d : Dialer) (s : ClientSettings) (made : MadeClient) : Type 0 where
  pub client : Client
  pub nc : ℕ
  pub outcome : made.outcome ≡ ok client
  pub connected : d.connect (connect_call s) ≡ ok nc
  pub jetstream : d.jetstream nc ≡ none
  pub holds : made.opened ≡ nc ∷ []
  pub keeps : made.closed ≡ []
  pub timeout : client.request_timeout ≡ s.request_timeout
  pub is_open : client.closed ≡ false

-- Why no client was made. The error is returned unchanged.
pub data IsCause (d : Dialer) (e : Error) : Result ClientSettings → Type 0 where
  settings : IsCause d e (err e)
  connection : (s : ClientSettings) → d.connect (connect_call s) ≡ err e → IsCause d e (ok s)
  context :
      (s : ClientSettings) (nc : ℕ)
      → d.connect (connect_call s) ≡ ok nc
      → d.jetstream nc ≡ some e
      → IsCause d e (ok s)

module _ (d : Dialer) where
  abbrev pub Outcomes : Result ClientSettings → MadeClient → Type 0
  Outcomes r made =
      ((s : ClientSettings) × (r ≡ ok s) × IsConnected d s made)
      ⊎ ((e : Error) × (made.outcome ≡ err e) × (made.closed ≡ made.opened) × IsCause d e r)

  with_jetstream-Outcomes :
      (s : ClientSettings) (nc : ℕ) (o : Option Error)
      → d.connect (connect_call s) ≡ ok nc
      → d.jetstream nc ≡ o
      → Outcomes (ok s) (with_jetstream s nc o)
  with_jetstream-Outcomes s nc (some e) c j = inr (e, refl, refl, context s nc c j)
  with_jetstream-Outcomes s nc none c j = inl (
    s,
    refl,
    record {
      client = record { request_timeout = s.request_timeout; closed = false; closes = 0 };
      nc = nc;
      outcome = refl;
      connected = c;
      jetstream = j;
      holds = refl;
      keeps = refl;
      timeout = refl;
      is_open = refl;
    },
  )

  with_connection-Outcomes :
      (s : ClientSettings) (r : Result ℕ)
      → d.connect (connect_call s) ≡ r
      → Outcomes (ok s) (with_connection d s r)
  with_connection-Outcomes s (err e) c = inr (e, refl, refl, connection s c)
  with_connection-Outcomes s (ok nc) c = with_jetstream-Outcomes s nc (d.jetstream nc) c refl

  with_settings-Outcomes : (r : Result ClientSettings) → Outcomes r (with_settings d r)
  with_settings-Outcomes (err e) = inr (e, refl, refl, settings)
  with_settings-Outcomes (ok s) = with_connection-Outcomes s (d.connect (connect_call s)) refl

-- NewClient makes an open client that holds the one connection that it opened, with the settings
-- that were read, or it returns unchanged the error of the settings, of the connection or of its
-- JetStream context, and leaves no connection open.
pub new_client-Outcomes :
    (go : Platform) (mesh : Contract) (d : Dialer) (cfg : Map String)
    → Outcomes d (parse_client_settings go mesh cfg) (new_client go mesh d cfg)
unfolding new_client
new_client-Outcomes go mesh d cfg = with_settings-Outcomes d (parse_client_settings go mesh cfg)
