-- ===== src/Net/Fetch.antt =====
-- src/netguard.rs: validation of a URL's host, resolution with a pin, and the manual chain of
-- redirects. What the service does not implement enters as a `Web`: URL parsing (crate url), the
-- parser of address literals, name resolution and the exchange itself (reqwest). The messages of
-- errors are named by their cause.
pub mod Host
pub mod Chain
mod Redirect
mod Tests
use mathlib.Core.Option.{get_or}
use zimi_rs.Base.{
  ℕ, zero, suc, Bool, true, false, not, ◌&&◌, ◌||◌, Option, none, some, List, [], ◌∷◌, ◌==◌,
  if◌then◌else◌, any, find, is_some, Text, codes, text_eq, trim, trim_start_by, trim_end_by,
  eq_ignore_ascii_case, Result, ok, err, ok_or, ◌>>=◌, ◌>>◌,
}
use zimi_rs.Net.Ip.{IpAddr}
use zimi_rs.Net.Blocked.{is_blocked_ip}

pub record Url : Type 0 where
  pub scheme : Text
  pub host_str : Option Text
  pub known_port : Option ℕ

pub data Cause : Type 0 where
  invalid_url no_host localhost blocked_range bad_scheme no_addresses resolves_blocked : Cause
  too_many_redirects : Cause

pub data Error : Type 0 where
  invalid_input : Cause → Error
  io : Error
  http : Error
  client : Error

-- A host and the address that a client is pinned to.
abbrev pub Pin : Type 0
Pin = Text × IpAddr

pub record Response : Type 0 where
  pub status : ℕ
  pub location : Option Text

pub record Web : Type 0 where
  pub parse : Text → Option Url
  pub join : Text → Text → Option Text
  pub parse_ip : Text → Option IpAddr
  -- By the number of redirects followed so far, since answers change over time.
  pub lookup_host : ℕ → Text → ℕ → Result (List IpAddr) Error
  pub build_client : ℕ → Option Pin → Result (Unit {0}) Error
  pub send : ℕ → Option Pin → Text → Result Response Error
  pub allow_private : ℕ → Bool

abbrev is_http : Text → Bool
is_http scheme = text_eq scheme (codes "http") || text_eq scheme (codes "https")

-- `trim_start_matches('[').trim_end_matches(']')`
abbrev pub bare : Text → Text
bare host = trim_end_by (λ c. c == b']') (trim_start_by (λ c. c == b'[') host)

pub data RedirectStep : Type 0 where
  final : RedirectStep
  follow : Text → RedirectStep

module _ (web : Web) where
  open web use {parse, join, parse_ip, lookup_host, build_client, send}

  abbrev check_literal : Option IpAddr → Bool → Bool → Result (Unit {0}) Error
  check_literal none allow_private allow_loopback = ok tt
  check_literal (some ip) allow_private allow_loopback =
      if is_blocked_ip ip allow_private allow_loopback
      then err (invalid_input blocked_range)
      else ok tt

  abbrev check_host : Text → Bool → Bool → Result (Unit {0}) Error
  check_host host allow_private allow_loopback =
      if eq_ignore_ascii_case host (codes "localhost") && not allow_loopback
      then err (invalid_input localhost)
      else check_literal (parse_ip (bare host)) allow_private allow_loopback

  unfoldable pub assert_host_not_blocked : Text → Bool → Bool → Result (Unit {0}) Error
  assert_host_not_blocked url allow_private allow_loopback = do
    parsed ← ok_or (parse url) (invalid_input invalid_url)
    if not (is_http parsed.scheme) then ok tt else (do
      host ← ok_or parsed.host_str (invalid_input no_host)
      check_host host allow_private allow_loopback)

  unfoldable pub validate_download_url : Text → Bool → Result (Unit {0}) Error
  validate_download_url url allow_private = do
    parsed ← ok_or (parse url) (invalid_input invalid_url)
    if not (is_http parsed.scheme)
        then err (invalid_input bad_scheme)
        else assert_host_not_blocked url allow_private false

  abbrev port_of : Url → ℕ
  port_of parsed =
      if text_eq parsed.scheme (codes "https")
      then get_or parsed.known_port 443
      else get_or parsed.known_port 80

  abbrev pin_first : Text → List IpAddr → Bool → Bool → Result (Option Pin) Error
  pin_first host [] allow_private allow_loopback = err (invalid_input no_addresses)
  pin_first host (a ∷ rest) allow_private allow_loopback =
      if any (λ ip. is_blocked_ip ip allow_private allow_loopback) (a ∷ rest)
      then err (invalid_input resolves_blocked)
      else ok (some (host, a))

  abbrev is_literal : Text → Bool
  is_literal host = is_some (parse_ip (bare host))

  -- `resolve_download_host`, `n` redirects into the chain.
  unfoldable pub resolve_download_host : ℕ → Text → Bool → Bool → Result (Option Pin) Error
  resolve_download_host n url allow_private allow_loopback = do
    parsed ← ok_or (parse url) (invalid_input invalid_url)
    host ← ok_or parsed.host_str (invalid_input no_host)
    if is_literal host then ok none else (do
      addrs ← lookup_host n host (port_of parsed)
      pin_first host addrs allow_private allow_loopback)

  abbrev pin_or : Text → Option Pin → Result (Option Pin) Error → Result (Option Pin) Error
  pin_or host none resolved = resolved
  pin_or host (some (_, ip)) resolved = ok (some (host, ip))

  unfoldable pub pin_for_hop : ℕ → Text → Bool → List Pin → Result (Option Pin) Error
  pin_for_hop n url allow_private host_pins = do
    parsed ← ok_or (parse url) (invalid_input invalid_url)
    host ← ok_or parsed.host_str (invalid_input no_host)
    if is_literal host
        then ok none
        else pin_or host (find (λ p. eq_ignore_ascii_case p.0 host) host_pins)
            (resolve_download_host n url allow_private false)

  abbrev join_step : Option Text → RedirectStep
  join_step none = final
  join_step (some next) = follow next

  abbrev location_step : Text → Option Text → RedirectStep
  location_step current none = final
  location_step current (some l) =
      if text_eq (trim l) [] then final else join_step (join current (trim l))

  abbrev pub is_redirect : ℕ → Bool
  is_redirect s = s == 301 || s == 302 || s == 303 || s == 307 || s == 308

  unfoldable pub redirect_step : Text → Response → RedirectStep
  redirect_step current r = if is_redirect r.status then location_step current r.location else final

pub record PinnedResponse : Type 0 where
  pub url : Text
  pub client : Option Pin
  pub response : Response

-- A request that goes out: its place in the chain, its URL and the pin of its client.
pub record Sent : Type 0 where
  pub hop : ℕ
  pub url : Text
  pub pin : Option Pin

abbrev pub max_redirect_hops : ℕ
max_redirect_hops = 5

-- What the chain returns, and the requests that it sent.
abbrev pub Outcome : Type 0
Outcome = Result PinnedResponse Error × List Sent

module _ (web : Web) (host_pins : List Pin) where
  open web use {build_client, send, allow_private}

  unfoldable pub prepare : ℕ → Text → Result (Option Pin) Error
  prepare n url = do
    validate_download_url web url (allow_private n)
    pin ← pin_for_hop web n url (allow_private n) host_pins
    build_client n pin
    ok pin

  abbrev cons_sent : Sent → Outcome → Outcome
  cons_sent s (result, sent) = (result, s ∷ sent)

  abbrev continue : (Text → Outcome) → Text → Option Pin → Response → RedirectStep → Outcome
  continue next url pin r final = (ok (record { url = url; client = pin; response = r }), [])
  continue next url pin r (follow target) = next target

  abbrev inspect : (Text → Outcome) → Text → Option Pin → Result Response Error → Outcome
  inspect next url pin (err e) = (err e, [])
  inspect next url pin (ok r) = continue next url pin r (redirect_step web url r)

  abbrev exchange : (Text → Outcome) → ℕ → Text → Result (Option Pin) Error → Outcome
  exchange next n url (err e) = (err e, [])
  exchange next n url (ok pin) =
      cons_sent (record { hop = n; url = url; pin = pin }) (inspect next url pin (send n pin url))

  -- The loop, by the number of redirects that may still be followed; `n` have been.
  unfoldable pub follow_from : ℕ → ℕ → Text → Outcome
  follow_from zero n url =
      exchange (λ _. (err (invalid_input too_many_redirects), [])) n url (prepare n url)
  follow_from (suc left) n url =
      exchange (λ next. follow_from left (suc n) next) n url (prepare n url)

  unfoldable pub follow_pinned_get : Text → Outcome
  follow_pinned_get start_url = follow_from max_redirect_hops 0 start_url
