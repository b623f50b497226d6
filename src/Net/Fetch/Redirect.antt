-- ===== src/Net/Fetch/Redirect.antt =====
-- src/netguard.rs: the redirect policy of the clients that the operator configures.
use mathlib.Core.Option.{get_or}
use zimi_rs.Base.{
  ℕ, ◌≡◌, refl, Bool, true, false, not, ◌&&◌, Option, none, some, List, [], ◌∷◌, arith, any, find,
  if◌then◌else◌, Text, codes, text_eq, eq_ignore_ascii_case, Result, ok, err, ok_or, ◌>>=◌, ◌>>◌,
  inl, inr, Option-cases,
}
use zimi_rs.Net.Ip.{IpAddr}
use zimi_rs.Net.Blocked.{is_blocked_ip}
use zimi_rs.Net.Fetch.{
  Url, Web, Pin, Error, invalid_input, localhost, no_host, is_http, bare, check_literal, check_host,
  assert_host_not_blocked, port_of, is_literal,
}

pub data Rejection : Type 0 where
  scheme_rejected : Rejection
  host_rejected : Error → Rejection
  unresolvable : Error → Rejection
  resolves_to : IpAddr → Rejection

-- What a policy does with an attempt.
pub data Action : Type 0 where
  follow : Action
  error : Rejection → Action

pub record GuardedClient : Type 0 where
  pub policy : ℕ → Text → Url → Action
  pub resolve : Option Pin

abbrev host_checked : Result (Unit {0}) Error → Result (Unit {0}) Rejection
host_checked (err e) = err (host_rejected e)
host_checked (ok _) = ok tt

abbrev first_bad : Option IpAddr → Result (Unit {0}) Rejection
first_bad none = ok tt
first_bad (some ip) = err (resolves_to ip)

abbrev all_addresses : Result (List IpAddr) Error → Bool → Bool → Result (Unit {0}) Rejection
all_addresses (err e) allow_private allow_loopback = err (unresolvable e)
all_addresses (ok addrs) allow_private allow_loopback =
    first_bad (find (λ ip. is_blocked_ip ip allow_private allow_loopback) addrs)

-- `redirect_policy_with`.
abbrev redirect_policy_with : Result (Unit {0}) Rejection → Action
redirect_policy_with (ok _) = follow
redirect_policy_with (err e) = error e

module _ (web : Web) where
  open web use {parse, parse_ip, lookup_host}

  abbrev check_addresses : ℕ → Url → Text → Bool → Bool → Result (Unit {0}) Rejection
  check_addresses n url host allow_private allow_loopback =
      if not (text_eq host []) && not (is_literal web host)
      then all_addresses (lookup_host n host (port_of web url)) allow_private allow_loopback
      else ok tt

  -- The URL as text and as parsed, at the instant `n` of the resolver.
  unfoldable pub redirect_hop_ok : ℕ → Text → Url → Bool → Bool → Result (Unit {0}) Rejection
  redirect_hop_ok n as_str url allow_private allow_loopback =
      if not (is_http url.scheme)
      then err scheme_rejected
      else (host_checked (assert_host_not_blocked web as_str allow_private allow_loopback) >>= λ _.
          check_addresses n url (get_or url.host_str []) allow_private allow_loopback)

  abbrev pub redirect_policy_flags : Bool → Bool → ℕ → Text → Url → Action
  redirect_policy_flags allow_private allow_loopback n as_str url =
      redirect_policy_with (redirect_hop_ok n as_str url allow_private allow_loopback)

  unfoldable pub build_guarded_client : Text → Bool → Bool → Option Pin → Result GuardedClient Error
  build_guarded_client endpoint allow_private allow_loopback pin = do
    assert_host_not_blocked web endpoint allow_private allow_loopback
    ok (record { policy = redirect_policy_flags allow_private allow_loopback; resolve = pin })

find-none : (p : IpAddr → Bool) (xs : List IpAddr) → find p xs ≡ none → any p xs ≡ false
find-none p [] h = refl
find-none p (x ∷ xs) h = ground (arith, find-none p xs)

followed : (r : Result (Unit {0}) Rejection) → redirect_policy_with r ≡ follow → r ≡ ok tt
followed (ok _) h = refl
followed (err e) h = cc

hop_gate :
    (http : Bool) (asserted : Result (Unit {0}) Error) (rest : Result (Unit {0}) Rejection)
    → (if not http then err scheme_rejected else (host_checked asserted >>= λ _. rest)) ≡ ok tt
    → (http ≡ true) × (asserted ≡ ok tt) × (rest ≡ ok tt)
hop_gate true (ok _) rest h = (refl, refl, h)
hop_gate true (err e) rest h = cc
hop_gate false asserted rest h = cc

host_gate :
    (o : Option Text) (k : Text → Result (Unit {0}) Error)
    → (ok_or o (invalid_input no_host) >>= k) ≡ ok tt
    → (host : Text) × (o ≡ some host) × (k host ≡ ok tt)
host_gate none k h = cc
host_gate (some host) k h = (host, refl, h)

module _ (web : Web) (private loopback : Bool) where
  open web use {parse, parse_ip, lookup_host}

  -- A hop's scheme, its host, and every address that the host stands for.
  pub record IsAllowed (n : ℕ) (url : Url) : Type 0 where
    http : is_http url.scheme ≡ true
    host : Text
    hosted : url.host_str ≡ some host
    local : (eq_ignore_ascii_case host (codes "localhost") && not loopback) ≡ false
    literal :
        (ip : IpAddr) → parse_ip (bare host) ≡ some ip → is_blocked_ip ip private loopback ≡ false
    named :
        parse_ip (bare host) ≡ none
        → text_eq host [] ≡ false
        → (addrs : List IpAddr) × (lookup_host n host (port_of web url) ≡ ok addrs)
          × (any (λ ip. is_blocked_ip ip private loopback) addrs ≡ false)

  host_passes :
      (here : Bool) (o : Option IpAddr)
      → (if here && not loopback
          then err (invalid_input localhost)
          else check_literal web o private loopback)
        ≡ ok tt
      → ((here && not loopback) ≡ false)
        × ((ip : IpAddr) → o ≡ some ip → is_blocked_ip ip private loopback ≡ false)
  host_passes here none h = (ground arith, λ ip e. cc)
  host_passes here (some a) h = (ground arith, λ ip e. ground arith)

  addresses_pass :
      (answer : Result (List IpAddr) Error)
      → all_addresses answer private loopback ≡ ok tt
      → (addrs : List IpAddr) × (answer ≡ ok addrs)
        × (any (λ ip. is_blocked_ip ip private loopback) addrs ≡ false)
  addresses_pass (err e) h = cc
  addresses_pass (ok addrs) h =
      elim (Option-cases (find (λ ip. is_blocked_ip ip private loopback) addrs)) [
        | inl clean ↦ (addrs, refl, find-none (λ ip. is_blocked_ip ip private loopback) addrs clean)
        | inr (ip, bad) ↦ cc
      ]

  redirect_hop_ok-IsAllowed :
      (n : ℕ) (as_str : Text) (url : Url)
      → parse as_str ≡ some url
      → redirect_hop_ok web n as_str url private loopback ≡ ok tt
      → IsAllowed n url
  unfolding redirect_hop_ok assert_host_not_blocked
  redirect_hop_ok-IsAllowed n as_str url parses h =
      let (http, asserted, rest) =
        hop_gate (is_http url.scheme) (assert_host_not_blocked web as_str private loopback)
          (check_addresses web n url (get_or url.host_str []) private loopback) h in
      let (host, hosted, passes) =
        host_gate url.host_str (λ host. check_host web host private loopback)
          (rw (parses, http, assert_host_not_blocked) at asserted) in
      let (local, literal) =
        host_passes (eq_ignore_ascii_case host (codes "localhost")) (parse_ip (bare host)) passes in
      record {
        http = http;
        host = host;
        hosted = hosted;
        local = local;
        literal = literal;
        named = λ unparsed nonempty.
            addresses_pass (lookup_host n host (port_of web url))
              (rw (hosted, unparsed, nonempty) at rest);
      }

  guarded :
      (endpoint : Text) (pin : Option Pin) (client : GuardedClient)
      → build_guarded_client web endpoint private loopback pin ≡ ok client
      → client.policy ≡ redirect_policy_flags web private loopback
  unfolding build_guarded_client
  guarded endpoint pin client h = built (assert_host_not_blocked web endpoint private loopback) h
    where
      built :
          (asserted : Result (Unit {0}) Error)
          → (asserted >>= λ _.
              ok (record { policy = redirect_policy_flags web private loopback; resolve = pin }))
            ≡ ok client
          → client.policy ≡ redirect_policy_flags web private loopback
      built (err e) k = cc
      built (ok _) k = cc

-- A guarded client follows a redirect only to an http or https URL with a host that is not
-- localhost, unless loopback is let in, and whose address, or every address that it resolves to at
-- that instant, the client's fixed policy lets through; the text of the URL parses to the URL.
pub build_guarded_client-IsAllowed :
    (web : Web) (private loopback : Bool) (endpoint : Text) (pin : Option Pin)
    (client : GuardedClient) (n : ℕ) (as_str : Text) (url : Url)
    → build_guarded_client web endpoint private loopback pin ≡ ok client
    → client.policy n as_str url ≡ follow
    → web.parse as_str ≡ some url
    → IsAllowed web private loopback n url
build_guarded_client-IsAllowed web private loopback endpoint pin client n as_str url built hop
      parses =
    let policy = guarded web private loopback endpoint pin client built in
    redirect_hop_ok-IsAllowed web private loopback n as_str url parses
      (followed (redirect_hop_ok web n as_str url private loopback) (rw policy at hop))
