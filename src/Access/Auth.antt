-- ===== src/Access/Auth.antt =====
-- src/serve/middleware.rs: the auth middleware, with the lockout table that it keeps. Verification of a
-- token against a stored credential, hashing (src/settings) and the parser of queries (crate url)
-- enter as `Verifier`.
pub mod Gated
pub mod Traffic
pub mod Guesses
mod Tests
use zimi_rs.Base.{
  ℕ, ◌+◌, ◌/◌, max, Bool, true, false, not, ◌&&◌, ◌||◌, Option, none, some, List, [], ◌∷◌, any,
  find, if◌then◌else◌, Text, codes, text_eq, starts_with, split_once, eq_ignore_ascii_case,
}
use zimi_rs.Net.Ip.{IpAddr}
use zimi_rs.Access.Lockout.{Table, lockout_remaining, record_failure, record_success}
use zimi_rs.Access.Proxy.{Nets, client_ip_from_xff}

pub record Settings : Type 0 where
  pub mode : Text
  pub admin_password : Text
  pub read_only_token : Text
  pub require_auth_for_reads : Bool
  pub trusted_proxy_cidrs : Text

pub record Request : Type 0 where
  pub method : Text
  pub path : Text
  pub query : Option Text
  pub authorization : Option Text
  pub xff : Option Text
  -- The peer's address, when the server knows it.
  pub peer : Option IpAddr

pub record Verifier : Type 0 where
  pub nets : Nets
  -- `form_urlencoded::parse`
  pub parse_query : Text → List (Text × Text)
  pub verify_bg : Text → Bool
  pub verify_read_only_bg : Text → Bool
  pub hash_admin_password : Text → Text

unfoldable pub is_read_verb : Text → Bool
is_read_verb m = any (text_eq m) (codes "GET" ∷ codes "HEAD" ∷ codes "OPTIONS" ∷ [])

unfoldable pub is_health_path : Text → Bool
is_health_path path = text_eq path (codes "/health") || starts_with (codes "/health/") path

abbrev pub read_only_paths : List Text
read_only_paths =
    codes "/search"
    ∷ codes "/suggest"
    ∷ codes "/read"
    ∷ codes "/snippet"
    ∷ codes "/random"
    ∷ codes "/chunks"
    ∷ codes "/interlanguage"
    ∷ codes "/list"
    ∷ codes "/openapi.json"
    ∷ []

unfoldable pub read_only_allowed : Text → Text → Bool
read_only_allowed method path =
    is_read_verb method
    && (is_health_path path || any (text_eq path) read_only_paths || starts_with (codes "/w/") path)

abbrev pub is_password_mode : Settings → Bool
is_password_mode s = text_eq s.mode (codes "password")

unfoldable pub auth_required : Text → Settings → Bool
auth_required method s =
    is_password_mode s
    && not (text_eq s.admin_password [])
    && (s.require_auth_for_reads || not (is_read_verb method))

abbrev scheme_token : Option (Text × Text) → Option Text
scheme_token none = none
scheme_token (some (scheme, token)) =
    if eq_ignore_ascii_case scheme (codes "bearer") then some token else none

abbrev split_header : Option Text → Option (Text × Text)
split_header none = none
split_header (some h) = split_once b' ' h

unfoldable pub bearer_token : Option Text → Option Text
bearer_token authorization = scheme_token (split_header authorization)

abbrev pub is_token_pair : Text × Text → Bool
is_token_pair (k, v) = text_eq k (codes "access_token") && not (text_eq v [])

abbrev second : Option (Text × Text) → Option Text
second none = none
second (some (_, v)) = some v

unfoldable pub query_token : Verifier → Option Text → Option Text
query_token w none = none
query_token w (some q) = second (find is_token_pair (w.parse_query q))

pub data AuthOutcome : Type 0 where
  full_access read_only_access no_access : AuthOutcome

-- `is_legacy_password`
unfoldable pub is_legacy_password : Text → Bool
is_legacy_password stored = not (starts_with (codes "$argon2id$") stored)

-- A stored credential that is written again as a hash.
pub data Upgrade : Type 0 where
  upgrade_admin : Text → Upgrade
  upgrade_read_only : Text → Upgrade

pub data Decision : Type 0 where
  run_next : Decision
  misconfigured : Decision
  locked_out : ℕ → Decision
  forbidden : Decision
  unauthorized : Decision

-- The decision, the lockout table afterwards, and the upgrade that was made.
pub record Answer : Type 0 where
  pub decision : Decision
  pub table : Table
  pub upgrade : Option Upgrade

abbrev pub plain : Decision → Table → Answer
plain d m = record { decision = d; table = m; upgrade = none }

abbrev pub first_token : Option Text → Option Text → Option Text
first_token (some t) other = some t
first_token none other = other

-- `as_secs_f64().ceil().clamp(1.0, …)` of nanoseconds.
abbrev pub whole_secs : ℕ → ℕ
whole_secs ns = max ((ns + 999_999_999) / 1_000_000_000) 1

module _ (w : Verifier) (s : Settings) where
  abbrev pub presented : Request → Option Text
  presented r =
      first_token (bearer_token r.authorization)
        (if is_read_verb r.method then query_token w r.query else none)

  abbrev pub verified : Option Text → AuthOutcome
  verified none = no_access
  verified (some t) =
      if text_eq t []
      then no_access
      else if w.verify_bg t
      then full_access
      else if not (text_eq s.read_only_token []) && w.verify_read_only_bg t
      then read_only_access
      else no_access

  abbrev key_with : Option Text → IpAddr → IpAddr
  key_with none peer = peer
  key_with (some x) peer = client_ip_from_xff w.nets s.trusted_proxy_cidrs (some x) peer

  abbrev pub lockout_key : Request → Option IpAddr
  lockout_key r = elim r.peer [ none ↦ none | some peer ↦ some (key_with r.xff peer) ]

  abbrev pub on_success : Option IpAddr → Table → Table
  on_success none m = m
  on_success (some ip) m = record_success ip m

  abbrev pub on_failure : ℕ → Option IpAddr → Table → Table
  on_failure now none m = m
  on_failure now (some ip) m = record_failure now ip m

  abbrev pub remaining : ℕ → Option IpAddr → Table → Option ℕ
  remaining now none m = none
  remaining now (some ip) m = lockout_remaining now ip m

  abbrev pub decide : ℕ → Request → Option IpAddr → Table → AuthOutcome → Answer
  decide now r ip m full_access = record {
    decision = run_next;
    table = on_success ip m;
    upgrade =
        if is_legacy_password s.admin_password
        then some (upgrade_admin (w.hash_admin_password s.admin_password))
        else none;
  }
  decide now r ip m read_only_access = record {
    decision = if read_only_allowed r.method r.path then run_next else forbidden;
    table = on_success ip m;
    upgrade =
        if is_legacy_password s.read_only_token
        then some (upgrade_read_only (w.hash_admin_password s.read_only_token))
        else none;
  }
  decide now r ip m no_access = plain unauthorized (on_failure now ip m)

  abbrev pub unless_locked : Option ℕ → Option Decision
  unless_locked none = none
  unless_locked (some rem) = some (locked_out (whole_secs rem))

  abbrev pub is_open : Request → Bool
  is_open r = (is_health_path r.path && is_read_verb r.method) || not (auth_required r.method s)

  -- What is decided before the credential is looked at, or nothing.
  unfoldable pub gate : ℕ → Request → Table → Option Decision
  gate now r m =
      if not (is_health_path r.path) && is_password_mode s && text_eq s.admin_password []
      then some misconfigured
      else if is_open r
      then some run_next
      else unless_locked (remaining now (lockout_key r) m)

  -- Once the verification has ended.
  abbrev pub judge : ℕ → Request → Table → Answer
  judge now r m = decide now r (lockout_key r) m (verified (presented r))

  abbrev pub after_gate : ℕ → (Table → Table) → Request → Table → Option Decision → Answer
  after_gate ended between r m (some d) = plain d m
  after_gate ended between r m none = judge ended r (between m)

  -- `auth_middleware`, which comes at `now`. The verification is awaited: it ends at `ended`, and
  -- `between` is what other requests do to the table meanwhile.
  unfoldable pub auth_middleware : ℕ → ℕ → (Table → Table) → Request → Table → Answer
  unfolding gate
  auth_middleware now ended between r m = after_gate ended between r m (gate now r m)
