-- ===== src/Config/Values.antt =====
-- What a setting that is read is: the parsed value of its key, or the default.
use mathlib.Core.Path.{subst}
use service_mesh_nats_go.Prelude.{
  String, Bool, true, false, ◌≡◌, inl, inr, Option, none, some, arith, Option-cases, if◌then◌else◌,
}
use service_mesh_nats_go.Prelude.Int.{ℤ, pos, ◌<ℤ◌, ◌≤ℤ◌}
use service_mesh_nats_go.Go.Platform.{Platform}
use service_mesh_nats_go.Go.Decimal.{parse_int}
use service_mesh_nats_go.Go.Duration.{parse_duration}
use service_mesh_nats_go.Go.Map.{Map, get}
use service_mesh_nats_go.Errors.{
  Detail, Error, wrapped, bad_config, Result, ok, err, is, ◌>>=◌, guard, >>=-eq-ok, ok-injective,
}
use service_mesh_nats_go.Config.{
  pull_max_messages_key, pull_max_bytes_key, pull_threshold_messages_key, pull_expiry_key,
  pull_heartbeat_key, positive, duration_setting, positive_int_setting, PullSettings,
  read_pull_settings,
}

-- The value `d` comes from the text `v`, or from the default where there is no text.
pub data Source (parse : String → Option ℤ) (fallback d : ℤ) (v : Option String) : Type 0 where
  by_default : v ≡ none → d ≡ fallback → Source parse fallback d v
  by_text : (t : String) → v ≡ some t → parse t ≡ some d → pos 0 <ℤ d → Source parse fallback d v

abbrev pub IsPositive : ℤ → Type 0
IsPositive d = pos 0 <ℤ d

pub positive-ok :
    (key v : String) (o : Option ℤ) (d : ℤ) → positive key v o ≡ ok d → (o ≡ some d) × IsPositive d
positive-ok key v none d h = cc
positive-ok key v (some x) d h = ground arith

-- A duration that is read is that of its key, which is positive, or the default.
pub duration_setting-Source :
    (go : Platform) (cfg : Map String) (key : String) (fallback d : ℤ)
    → duration_setting go cfg key fallback ≡ ok d
    → Source (parse_duration go) fallback d (get cfg key)
unfolding duration_setting
duration_setting-Source go cfg key fallback d h = elim (Option-cases (get cfg key)) [
  | inl e ↦ by_default e (ground arith)
  | inr (v, e) ↦
      let (p, q) = positive-ok key v (parse_duration go v) d (ground arith) in by_text v e p q
]

pub positive_int_setting-Source :
    (cfg : Map String) (key : String) (fallback d : ℤ)
    → positive_int_setting cfg key fallback ≡ ok d
    → Source parse_int fallback d (get cfg key)
unfolding positive_int_setting
positive_int_setting-Source cfg key fallback d h = elim (Option-cases (get cfg key)) [
  | inl e ↦ by_default e (ground arith)
  | inr (v, e) ↦ let (p, q) = positive-ok key v (parse_int v) d (ground arith) in by_text v e p q
]

-- The value `a` is named by the text `v`, or is the default where there is no text.
pub data Chosen {A : Type 0} (fallback : A) (choices : Map A) (a : A) (v : Option String)
    : Type 0 where
  unset : v ≡ none → a ≡ fallback → Chosen fallback choices a v
  named : (t : String) → v ≡ some t → get choices t ≡ some a → Chosen fallback choices a v

-- The pull settings, from the values of their keys, or those that apply to all subscribers.
pub record ReadsPull (go : Platform) (md : Map String) (fallback p : PullSettings) : Type 0 where
  pub max_messages :
      Source parse_int fallback.max_messages p.max_messages (get md "pull_max_messages")
  pub max_bytes : Source parse_int fallback.max_bytes p.max_bytes (get md "pull_max_bytes")
  pub threshold_messages :
      Source parse_int fallback.threshold_messages p.threshold_messages
        (get md "pull_threshold_messages")
  pub expiry : Source (parse_duration go) fallback.expiry p.expiry (get md "pull_expiry")
  pub heartbeat :
      Source (parse_duration go) fallback.heartbeat p.heartbeat (get md "pull_heartbeat")

pub read_pull_settings-ReadsPull :
    (go : Platform) (md : Map String) (fallback p : PullSettings)
    → read_pull_settings go md fallback ≡ ok p
    → ReadsPull go md fallback p
unfolding read_pull_settings
read_pull_settings-ReadsPull go md fallback p h =
    let (m, em, hm) =
      >>=-eq-ok (positive_int_setting md pull_max_messages_key fallback.max_messages) _ h in
    let (b, eb, hb) =
      >>=-eq-ok (positive_int_setting md pull_max_bytes_key fallback.max_bytes) _ hm in
    let (t, et, ht) =
      >>=-eq-ok (positive_int_setting md pull_threshold_messages_key fallback.threshold_messages) _
        hb in
    let (x, ex, hx) = >>=-eq-ok (duration_setting go md pull_expiry_key fallback.expiry) _ ht in
    let (k, ek, hk) =
      >>=-eq-ok (duration_setting go md pull_heartbeat_key fallback.heartbeat) _ hx in
    subst (ReadsPull go md fallback) (ok-injective hk) (record {
      max_messages = positive_int_setting-Source md _ _ m em;
      max_bytes = positive_int_setting-Source md _ _ b eb;
      threshold_messages = positive_int_setting-Source md _ _ t et;
      expiry = duration_setting-Source go md _ _ x ex;
      heartbeat = duration_setting-Source go md _ _ k ek;
    })

-- A property of the default and of every positive number holds of what is read.
pub Source-elim {ℓ} :
    {parse : String → Option ℤ} {fallback d : ℤ} {v : Option String} (P : ℤ → Type ℓ)
    → Source parse fallback d v
    → P fallback
    → ((x : ℤ) → IsPositive x → P x)
    → P d
Source-elim P (by_default e f) base step = rw f base
Source-elim P (by_text t e p q) base step = step _ q

-- An error of a chain of settings is ErrBadConfig.
pub record IsBadConfig {ℓ} {A : Type ℓ} (r : Result A) : Type ℓ where
  pub at : (e : Error) → r ≡ err e → is e bad_config ≡ true

module _ {ℓ} {A : Type ℓ} where
  pub IsBadConfig-ok : (a : A) → IsBadConfig (ok a)
  IsBadConfig-ok a = record { at = λ e h. cc }

  pub IsBadConfig-bad_config : (d : Detail) → IsBadConfig {A = A} (err (wrapped bad_config d))
  unfolding is
  IsBadConfig-bad_config d = record { at = λ e h. ground arith }

  pub IsBadConfig-if :
      (b : Bool) (m n : Result A) → IsBadConfig m → IsBadConfig n → IsBadConfig (if b then m else n)
  IsBadConfig-if true m n hm hn = hm
  IsBadConfig-if false m n hm hn = hn

pub IsBadConfig-guard_if :
    (b : Bool) (d : Detail) → IsBadConfig (guard (if b then some (wrapped bad_config d) else none))
IsBadConfig-guard_if true d = IsBadConfig-bad_config d
IsBadConfig-guard_if false d = IsBadConfig-ok tt

module _ {ℓ κ} {A : Type ℓ} {B : Type κ} where
  pub IsBadConfig-bind :
      (m : Result A) (f : A → Result B)
      → IsBadConfig m
      → ((a : A) → IsBadConfig (f a))
      → IsBadConfig (m >>= f)
  IsBadConfig-bind (ok a) f hm hf = hf a
  IsBadConfig-bind (err e) f hm hf = record { at = λ x h. hm.at x (ground arith) }

pub IsBadConfig-positive : (key v : String) (o : Option ℤ) → IsBadConfig (positive key v o)
IsBadConfig-positive key v none = IsBadConfig-bad_config _
IsBadConfig-positive key v (some d) =
    IsBadConfig-if _ _ _ (IsBadConfig-bad_config _) (IsBadConfig-ok _)

pub IsBadConfig-duration_setting :
    (go : Platform) (cfg : Map String) (key : String) (d : ℤ)
    → IsBadConfig (duration_setting go cfg key d)
unfolding duration_setting
IsBadConfig-duration_setting go cfg key d = elim (Option-cases (get cfg key)) [
  | inl e ↦ rw (e, duration_setting) (IsBadConfig-ok d)
  | inr (v, e) ↦ rw (e, duration_setting) (IsBadConfig-positive key v (parse_duration go v))
]

pub IsBadConfig-positive_int_setting :
    (cfg : Map String) (key : String) (d : ℤ) → IsBadConfig (positive_int_setting cfg key d)
unfolding positive_int_setting
IsBadConfig-positive_int_setting cfg key d = elim (Option-cases (get cfg key)) [
  | inl e ↦ rw (e, positive_int_setting) (IsBadConfig-ok d)
  | inr (v, e) ↦ rw (e, positive_int_setting) (IsBadConfig-positive key v (parse_int v))
]

pub ruleset setting_rules = (
  IsBadConfig-ok, IsBadConfig-bad_config, IsBadConfig-guard_if, IsBadConfig-bind,
  IsBadConfig-positive, IsBadConfig-duration_setting, IsBadConfig-positive_int_setting,
)

pub IsBadConfig-read_pull_settings :
    (go : Platform) (md : Map String) (p : PullSettings) → IsBadConfig (read_pull_settings go md p)
unfolding read_pull_settings
IsBadConfig-read_pull_settings go md p =
    search
      (
        IsBadConfig-ok, IsBadConfig-bind, IsBadConfig-positive_int_setting,
        IsBadConfig-duration_setting,
      )
      depth 12

pub duration_setting-eq_of_get :
    (go : Platform) (c d : Map String) (key : String) (fallback : ℤ)
    → get c key ≡ get d key
    → duration_setting go c key fallback ≡ duration_setting go d key fallback
unfolding duration_setting
duration_setting-eq_of_get go c d key fallback e = rw (e, duration_setting)

pub positive_int_setting-eq_of_get :
    (c d : Map String) (key : String) (fallback : ℤ)
    → get c key ≡ get d key
    → positive_int_setting c key fallback ≡ positive_int_setting d key fallback
unfolding positive_int_setting
positive_int_setting-eq_of_get c d key fallback e = rw (e, positive_int_setting)

pub Source-nonneg :
    {parse : String → Option ℤ} {fallback d : ℤ} {v : Option String}
    → pos 0 ≤ℤ fallback
    → Source parse fallback d v
    → pos 0 ≤ℤ d
Source-nonneg h s = Source-elim (λ x. pos 0 ≤ℤ x) s h (λ x p. omega arith)
