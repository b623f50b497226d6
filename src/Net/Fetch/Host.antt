-- ===== src/Net/Fetch/Host.antt =====
-- src/netguard.rs: what a URL has passed when its request is prepared.
use zimi_rs.Base.{
  ℕ, ◌≡◌, refl, sym, ap, inl, inr, Bool, true, false, not, ◌&&◌, Option, none, some, List, [], ◌∷◌,
  arith, if◌then◌else◌, find, Text, codes, eq_ignore_ascii_case, Result, ok, err, ok_or, ◌>>=◌,
  Option-cases,
}
use zimi_rs.Net.Ip.{IpAddr}
use zimi_rs.Net.Blocked.{is_blocked_ip}
use zimi_rs.Net.Fetch.{
  Url, Web, Pin, Error, invalid_input, localhost, no_host, bad_scheme, is_http, bare, check_literal,
  check_host, assert_host_not_blocked, validate_download_url, pin_first, port_of,
  resolve_download_host, pin_for_hop, prepare,
}

ok_injective : {a b : Option Pin} → ◌≡◌ {A = Result (Option Pin) Error} (ok a) (ok b) → a ≡ b
ok_injective h = cc

err-ne-ok : {e : Error} → ◌≡◌ {A = Result (Unit {0}) Error} (err e) (ok tt) → ⊥
err-ne-ok h = cc

-- The three fallible steps before a request.
prepared :
    (valid : Result (Unit {0}) Error) (hop : Result (Option Pin) Error)
    (build : Option Pin → Result (Unit {0}) Error) (pin : Option Pin)
    → (valid >>= λ _. (hop >>= λ p. (build p >>= λ _. ok p))) ≡ ok pin
    → (valid ≡ ok tt) × (hop ≡ ok pin)
prepared (err e) hop build pin h = cc
prepared (ok _) (err e) build pin h = cc
prepared (ok _) (ok p) build pin h = (refl, ap ok (built (build p) h))
  where
    built : (b : Result (Unit {0}) Error) → (b >>= λ _. ok p) ≡ ok pin → p ≡ pin
    built (err e) k = cc
    built (ok _) k = cc

-- The tests of `validate_download_url`, on the values that they look at.
gate :
    (http : Bool) (o : Option Text) (k : Text → Result (Unit {0}) Error)
    → (if not http
        then err (invalid_input bad_scheme)
        else if not http
        then ok tt
        else (ok_or o (invalid_input no_host) >>= k))
      ≡ ok tt
    → (http ≡ true) × ((host : Text) × (o ≡ some host) × (k host ≡ ok tt))
gate true none k h = cc
gate true (some host) k h = (refl, (host, refl, h))
gate false o k h = cc

first_of_list :
    (host : Text) (private : Bool) (addrs : List IpAddr) (pin : Option Pin) (web : Web)
    → pin_first web host addrs private false ≡ ok pin
    → (ip : IpAddr) × (pin ≡ some (host, ip)) × (is_blocked_ip ip private false ≡ false)
first_of_list host private [] pin web h = cc
first_of_list host private (a ∷ rest) pin web h = (a, ground arith, ground arith)

module _ (web : Web) where
  open web use {parse, parse_ip}

  check :
      (local : Bool) (o : Option IpAddr) (private : Bool)
      → (if local && not false
          then err (invalid_input localhost)
          else check_literal web o private false)
        ≡ ok tt
      → (local ≡ false) × ((ip : IpAddr) → o ≡ some ip → is_blocked_ip ip private false ≡ false)
  check local none private h = (ground arith, λ ip e. cc)
  check local (some a) private h = (ground arith, λ ip e. ground arith)

  first_of_answer :
      (host : Text) (private : Bool) (answer : Result (List IpAddr) Error) (pin : Option Pin)
      → (answer >>= λ addrs. pin_first web host addrs private false) ≡ ok pin
      → (ip : IpAddr) × (pin ≡ some (host, ip)) × (is_blocked_ip ip private false ≡ false)
  first_of_answer host private (err e) pin h = cc
  first_of_answer host private (ok addrs) pin h = first_of_list host private addrs pin web h

  -- The connection can only reach an address that the policy allows: the literal in the URL, or the
  -- address that the client is pinned to, which was resolved or handed in.
  pub data IsReachable (private : Bool) (pins : List Pin) (host : Text) (pin : Option Pin)
      : Type 0 where
    literal :
        (ip : IpAddr)
        → parse_ip (bare host) ≡ some ip
        → is_blocked_ip ip private false ≡ false
        → pin ≡ none
        → IsReachable private pins host pin
    resolved :
        (ip : IpAddr)
        → pin ≡ some (host, ip)
        → is_blocked_ip ip private false ≡ false
        → IsReachable private pins host pin
    handed_in :
        (ip : IpAddr) (name : Text)
        → pin ≡ some (host, ip)
        → find (λ p. eq_ignore_ascii_case p.0 host) pins ≡ some (name, ip)
        → IsReachable private pins host pin

  pub record IsChecked (private : Bool) (pins : List Pin) (url : Text) (pin : Option Pin)
      : Type 0 where
    pub parsed : Url
    pub host : Text
    pub parses : parse url ≡ some parsed
    pub http : is_http parsed.scheme ≡ true
    pub hosted : parsed.host_str ≡ some host
    pub not_localhost : eq_ignore_ascii_case host (codes "localhost") ≡ false
    pub reachable : IsReachable private pins host pin

  validated :
      (private : Bool) (url : Text) (u : Url)
      → parse url ≡ some u
      → validate_download_url web url private ≡ ok tt
      → (is_http u.scheme ≡ true)
        × ((host : Text) × (u.host_str ≡ some host) × (check_host web host private false ≡ ok tt))
  unfolding validate_download_url assert_host_not_blocked
  validated private url u parses h =
      gate (is_http u.scheme) u.host_str (λ host. check_host web host private false)
        (rw (parses, validate_download_url, assert_host_not_blocked) at h)

  checked :
      (private : Bool) (host : Text)
      → check_host web host private false ≡ ok tt
      → (eq_ignore_ascii_case host (codes "localhost") ≡ false)
        × ((ip : IpAddr) → parse_ip (bare host) ≡ some ip → is_blocked_ip ip private false ≡ false)
  checked private host h =
      check (eq_ignore_ascii_case host (codes "localhost")) (parse_ip (bare host)) private h

  looked_up :
      (n : ℕ) (private : Bool) (url host : Text) (u : Url) (pin : Option Pin)
      → parse url ≡ some u
      → u.host_str ≡ some host
      → parse_ip (bare host) ≡ none
      → resolve_download_host web n url private false ≡ ok pin
      → (ip : IpAddr) × (pin ≡ some (host, ip)) × (is_blocked_ip ip private false ≡ false)
  unfolding resolve_download_host
  looked_up n private url host u pin parses hosted named h =
      first_of_answer host private (web.lookup_host n host (port_of web u)) pin
        (rw (parses, hosted, named, resolve_download_host) at h)

  IsReachable-of :
      (n : ℕ) (private : Bool) (pins : List Pin) (url host : Text) (u : Url) (pin : Option Pin)
      → parse url ≡ some u
      → u.host_str ≡ some host
      → check_host web host private false ≡ ok tt
      → pin_for_hop web n url private pins ≡ ok pin
      → IsReachable private pins host pin
  unfolding pin_for_hop
  IsReachable-of n private pins url host u pin parses hosted h hop =
      elim (Option-cases (parse_ip (bare host))) [
        | inr (ip, is_ip) ↦
            literal ip is_ip ((checked private host h).1 ip is_ip)
              (ok_injective (sym (rw (parses, hosted, is_ip, pin_for_hop) at hop)))
        | inl named ↦ elim (Option-cases (find (λ p. eq_ignore_ascii_case p.0 host) pins)) [
          | inr ((name, ip), held) ↦
              handed_in ip name
                (ok_injective (sym (rw (parses, hosted, named, held, pin_for_hop) at hop))) held
          | inl unheld ↦
              let (ip, pinned, open_ip) =
                looked_up n private url host u pin parses hosted named
                  (rw (parses, hosted, named, unheld, pin_for_hop) at hop) in
              resolved ip pinned open_ip
        ]
      ]

  parsed_of :
      (private : Bool) (url : Text)
      → validate_download_url web url private ≡ ok tt
      → (u : Url) × (parse url ≡ some u)
  unfolding validate_download_url
  parsed_of private url h = elim (Option-cases (parse url)) [
    | inl bad ↦ absurd (err-ne-ok (rw (bad, validate_download_url) at h))
    | inr found ↦ found
  ]

  IsChecked-of :
      (n : ℕ) (private : Bool) (pins : List Pin) (url : Text) (pin : Option Pin)
      → validate_download_url web url private ≡ ok tt
      → pin_for_hop web n url private pins ≡ ok pin
      → IsChecked private pins url pin
  IsChecked-of n private pins url pin valid hop =
      let (u, parses) = parsed_of private url valid in
      let (http, (host, hosted, passes)) = validated private url u parses valid in
      record {
        parsed = u;
        host = host;
        parses = parses;
        http = http;
        hosted = hosted;
        not_localhost = (checked private host passes).0;
        reachable = IsReachable-of n private pins url host u pin parses hosted passes hop;
      }

module _ (web : Web) (pins : List Pin) where
  -- What is prepared for a request has passed every check, under the policy of its instant.
  pub prepare-IsChecked :
      (n : ℕ) (url : Text) (pin : Option Pin)
      → prepare web pins n url ≡ ok pin
      → IsChecked web (web.allow_private n) pins url pin
  unfolding prepare
  prepare-IsChecked n url pin h =
      let (valid, hop) =
        prepared (validate_download_url web url (web.allow_private n))
          (pin_for_hop web n url (web.allow_private n) pins) (web.build_client n) pin h in
      IsChecked-of web n (web.allow_private n) pins url pin valid hop
