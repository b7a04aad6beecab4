-- ===== src/Errors.antt =====
-- nats/errors.go, and the errors that the package builds with fmt.Errorf and errors.New.
use service_mesh_nats_go.Prelude.{
  ℕ, String, Bool, true, false, ◌||◌, List, [], ◌∷◌, ◌≡◌, refl, Option, none, some,
}
use service_mesh_nats_go.Prelude.Int.{ℤ}
use service_mesh_nats_go.Mesh.{Kind}

-- The error variables that the code returns or tests for by errors.Is.
pub data Sentinel : Type 0 where
  bad_config closed already_started stopped stream_covers_route : Sentinel
  no_deployment_group kind_mismatch invalid_target : Sentinel
  no_responders timed_out no_stream_response : Sentinel
  stream_not_found consumer_deleted consumer_not_found : Sentinel
  jetstream_not_enabled jetstream_not_enabled_for_account : Sentinel
  deadline_exceeded canceled request_timeout : Sentinel

pub Sentinel-discrete : Discrete Sentinel
Sentinel-discrete = hlevel

-- Why a segment of a target is refused.
pub data SegmentFault : Type 0 where
  empty contains_dot contains_whitespace contains_non_printable : SegmentFault
  contains_wildcard : ℕ → SegmentFault

-- What the text of an error names.
pub data Detail : Type 0 where
  no_segments : Detail
  bad_segment : ℕ → String → SegmentFault → Detail
  wrong_kind : String → Kind → Kind → Detail
  bad_setting : String → String → Detail
  few_deliveries : ℤ → ℕ → Detail
  covered : String → String → Detail
  nil_client : Detail
  nil_handler : String → Detail
  panicked : String → Detail

pub data Error : Type 0 where
  -- one of the variables
  sentinel : Sentinel → Error
  -- fmt.Errorf("%w: …", …)
  wrapped : Sentinel → Detail → Error
  -- fmt.Errorf or errors.New with no error inside
  plain : Detail → Error
  -- *HandlerError
  handler_error : String → Error
  -- an error of nats.go, of a handler or of a context: the variables in its chain, and its text
  foreign : List Sentinel → String → Error

same : Sentinel → Sentinel → Bool
unfolding Sentinel-discrete
same a b = elim (Sentinel-discrete a b) [ yes _ ↦ true | no _ ↦ false ]

listed : List Sentinel → Sentinel → Bool
unfolding same
listed [] s = false
listed (x ∷ xs) s = same x s || listed xs s

-- errors.Is
unfoldable pub is : Error → Sentinel → Bool
unfolding listed
is (sentinel a) s = same a s
is (wrapped a d) s = same a s
is (plain d) s = false
is (handler_error t) s = false
is (foreign chain t) s = listed chain s

-- A function that returns a value and an error.
pub data Result {ℓ} (T : Type ℓ) : Type ℓ where
  ok : T → Result T
  err : Error → Result T

-- `if err := …; err != nil { return err }`
abbrev pub or_fail {ℓ} : {T : Type ℓ} → Option Error → T → Result T
or_fail none t = ok t
or_fail (some fault) t = err fault

abbrev pub guard : Option Error → Result (Unit {0})
guard fault = or_fail fault tt

-- The rest of a function after a call that may return an error.
infixl 5 ◌>>=◌ ◌>>◌
abbrev pub ◌>>=◌ {ℓ κ} : {T : Type ℓ} {U : Type κ} → Result T → (T → Result U) → Result U
err fault >>= rest = err fault
ok t >>= rest = rest t

abbrev pub ◌>>◌ {κ} : {U : Type κ} → Result (Unit {0}) → Result U → Result U
check >> rest = check >>= λ done. rest

pub ok-injective {ℓ} : {T : Type ℓ} {t u : T} → ok t ≡ ok u → t ≡ u
ok-injective h = cc

-- Inversion of a chain that succeeds.
pub >>=-eq-ok {ℓ κ} :
    {T : Type ℓ} {U : Type κ} (call : Result T) (rest : T → Result U) {u : U}
    → (call >>= rest) ≡ ok u
    → (t : T) × (call ≡ ok t) × (rest t ≡ ok u)
>>=-eq-ok (err fault) rest h = cc
>>=-eq-ok (ok t) rest h = (t, refl, h)

is_wrapped : is (wrapped bad_config (bad_setting "a" "b")) bad_config ≡ true
unfolding is
is_wrapped = refl
