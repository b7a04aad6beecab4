-- ===== src/Runtime/Missing.antt =====
-- The watch of nats/consumers.go over the consumers that are gone, r.missing: consumeError,
-- watchMissing, checkMissing and logMissing.
pub mod Kept
use service_mesh_nats_go.Prelude.{
  ℕ, String, Bool, true, false, not, ◌&&◌, ◌||◌, ◌≡◌, ◌↔◌, refl, sym, ap, ◌∙◌, ◌⊎◌, inl, inr, List,
  [], ◌∷◌, ◌++◌, Option, none, some, eqb, is_empty, is_some, contains, without, contains-without,
  if◌then◌else◌, arith,
}
use mathlib.Core.Path.{subst}
use service_mesh_nats_go.Errors.{Error, is, consumer_deleted, no_responders, consumer_not_found}
use service_mesh_nats_go.Receive.Logs.{Value, text, error, Log, warn, log_error}

-- A jsConsumer, as far as this code reads it.
pub record Watched : Type 0 where
  pub subject : String
  pub stream : String
  pub is_ordered : Bool
  -- the name in CachedInfo
  pub name : String

-- What checkMissing finds of a consumer.
pub record Found : Type 0 where
  -- nats.go has stopped consuming from it
  pub stopped : Bool
  -- the client is open and its connection is up
  pub connected : Bool
  -- the error of Info
  pub info : Option Error

abbrev pub attr_of : Option Error → List (String × Value)
attr_of none = []
attr_of (some e) = ("error", error e) ∷ []

unfoldable pub log_missing : Watched → Option Error → Log
log_missing c e = log_error "nats: consumer missing" (
    ("subject", text c.subject) ∷ ("stream", text c.stream) ∷ ("consumer", text c.name) ∷ attr_of e)

-- errors.Is(err, jetstream.ErrConsumerDeleted) || errors.Is(err, natsio.ErrNoResponders)
abbrev pub is_loss : Error → Bool
unfolding is
is_loss e = is e consumer_deleted || is e no_responders

-- r.missing as the addresses that it holds; and what is logged.
unfoldable pub consume_error : (ℕ → Watched) → ℕ → Error → List ℕ → List ℕ × List Log
unfolding log_missing
consume_error at c e missing =
    if not (at c).is_ordered && is_loss e
    then (if contains missing c then missing else c ∷ missing, log_missing (at c) (some e) ∷ [])
    else (
      missing,
      warn "nats: consume error" (
            ("subject", text (at c).subject)
            ∷ ("stream", text (at c).stream)
            ∷ ("error", error e)
            ∷ [])
          ∷ [],
    )

-- The error that logMissing is given: none when the server does not find the consumer.
abbrev pub other_than_lost : Error → Option Error
unfolding is
other_than_lost e = if is e consumer_not_found then none else some e

abbrev pub after_info : (ℕ → Watched) → ℕ → Option Error → List ℕ → List ℕ × List Log
unfolding log_missing
after_info at c none missing = (without missing c, [])
after_info at c (some e) missing = (missing, log_missing (at c) (other_than_lost e) ∷ [])

unfoldable pub check_missing : (ℕ → Watched) → ℕ → Found → List ℕ → List ℕ × List Log
unfolding log_missing
check_missing at c f missing =
    if f.stopped
    then (missing, log_missing (at c) none ∷ [])
    else if not f.connected
    then (missing, [])
    else after_info at c f.info missing

-- A tick of watchMissing: the range over r.missing, given what is found of each consumer. What is
-- logged is given with the address of its consumer.
unfoldable pub check_each :
    (ℕ → Watched) → (ℕ → Found) → List ℕ → List ℕ → List ℕ × List (ℕ × List Log)
unfolding check_missing
check_each at found [] missing = (missing, [])
check_each at found (c ∷ cs) missing =
    let (missing', logs) = check_missing at c (found c) missing in
    let (missing'', rest) = check_each at found cs missing' in (missing'', (c, logs) ∷ rest)

unfoldable pub tick : (ℕ → Watched) → (ℕ → Found) → List ℕ → List ℕ × List (ℕ × List Log)
unfolding check_each
tick at found missing = check_each at found missing missing

-- What happens to the consumers: nats.go reports an error of one, or the watch checks one.
pub data Event : Type 0 where
  reported : ℕ → Error → Event
  checked : ℕ → Found → Event

unfoldable pub on_event : (ℕ → Watched) → Event → List ℕ → List ℕ × List Log
unfolding consume_error check_missing
on_event at (reported c e) missing = consume_error at c e missing
on_event at (checked c f) missing = check_missing at c f missing

-- r.missing after events, the latest first.
unfoldable pub missing_after : (ℕ → Watched) → List Event → List ℕ
unfolding on_event
missing_after at [] = []
missing_after at (event ∷ earlier) = (on_event at event (missing_after at earlier)).0

-- nats.go still consumes from it, and the server finds it.
abbrev pub is_back : Found → Bool
is_back f = not f.stopped && (f.connected && not (is_some f.info))

-- A check of the consumer that finds it back.
abbrev pub finds_back : ℕ → Event → Bool
finds_back c (reported d e) = false
finds_back c (checked d f) = eqb d c && is_back f

-- It is not ordered, its loss was reported, and no check since has found it back.
pub data IsLost (at : ℕ → Watched) (c : ℕ) : List Event → Type 0 where
  loss :
      {e : Error} {earlier : List Event}
      → (at c).is_ordered ≡ false
      → is_loss e ≡ true
      → IsLost at c (reported c e ∷ earlier)
  since :
      {event : Event} {earlier : List Event}
      → finds_back c event ≡ false
      → IsLost at c earlier
      → IsLost at c (event ∷ earlier)
