-- ===== src/Access/Auth/Tests.antt =====
-- Requests through the auth middleware, and the theorems at inputs that meet their hypotheses.
use zimi_rs.Base.{
  ◌+◌, ◌<◌, ◌≡◌, ◌≢◌, refl, true, false, Option, none, some, List, [], ◌∷◌, lookup, insert, Text,
  codes, text_eq, starts_with, split_once, eq_ignore_ascii_case, to_ascii_lower, arith, split, trim,
  trim_start_by, trim_end_by, is_whitespace, contains,
}
use zimi_rs.Net.Ip.{IpAddr, ip4, ip_keys, beq_ip}
use zimi_rs.Access.Lockout.{max_failures, lockout_remaining, record_failure, count_failure}
use zimi_rs.Access.Proxy.{Nets, cidrs_contains, parse_cidr_entry, xff_entries, client_ip_from_xff}
use zimi_rs.Access.Auth.{
  Settings, Request, Verifier, is_read_verb, is_health_path, read_only_allowed, auth_required,
  bearer_token, query_token, is_legacy_password, run_next, forbidden, unauthorized, locked_out,
  gate, auth_middleware, remaining, lockout_key,
}
use zimi_rs.Access.Auth.Traffic.{Traffic, Moment, arrives, ends, pick, step}
use zimi_rs.Access.Auth.Gated.{IsCredential, auth_middleware-IsCredential}
use zimi_rs.Access.Auth.Guesses.{in_flight, guesses, IsGuessing, guesses-le}

auth_runs : Unit {0}
unfolding is_read_verb is_health_path read_only_allowed auth_required bearer_token query_token
    is_legacy_password gate auth_middleware pick step in_flight guesses IsGuessing record_failure
    count_failure insert lockout_remaining cidrs_contains parse_cidr_entry xff_entries
    client_ip_from_xff text_eq starts_with split_once eq_ignore_ascii_case to_ascii_lower split trim
    trim_start_by trim_end_by is_whitespace contains lookup beq_ip
auth_runs = tt

-- One proxy is trusted, by its address.
abbrev nets : Nets
nets = record {
  parse_ip = λ s. elim (text_eq s (codes "10.0.0.1")) [
    | true ↦ some (ip4 10 0 0 1)
    | false ↦ elim (text_eq s (codes "9.9.9.9")) [ true ↦ some (ip4 9 9 9 9) | false ↦ none ]
  ];
  parse_net = λ s. none;
}

abbrev verifier : Verifier
verifier = record {
  nets = nets;
  parse_query = λ q. (codes "access_token", codes "admin") ∷ [];
  verify_bg = λ t. text_eq t (codes "admin");
  verify_read_only_bg = λ t. text_eq t (codes "reader");
  hash_admin_password = λ p. codes "$argon2id$";
}

abbrev settings : Settings
settings = record {
  mode = codes "password";
  admin_password = codes "admin";
  read_only_token = codes "reader";
  require_auth_for_reads = true;
  trusted_proxy_cidrs = codes "10.0.0.1";
}

abbrev alice : IpAddr
alice = ip4 9 9 9 9

abbrev request : Text → Text → Option Text → Request
request method path authorization = record {
  method = method;
  path = path;
  query = some (codes "access_token=admin");
  authorization = authorization;
  xff = none;
  peer = some alice;
}

abbrev put_settings : Request
put_settings = request (codes "PUT") (codes "/settings") (some (codes "Bearer admin"))

admin_writes : (auth_middleware verifier settings 5 6 (λ m. m) put_settings []).decision ≡ run_next
unfolding auth_runs
admin_writes = refl

query_does_not_write :
    (auth_middleware verifier settings 5 6
      (λ m. m)
      (request (codes "PUT") (codes "/settings") none)
      []).decision
    ≡ unauthorized
unfolding auth_runs
query_does_not_write = refl

query_reads :
    (auth_middleware verifier settings 5 6
      (λ m. m)
      (request (codes "GET") (codes "/settings") none)
      []).decision
    ≡ run_next
unfolding auth_runs
query_reads = refl

reader_is_scoped :
    (auth_middleware verifier settings 5 6
      (λ m. m)
      (request (codes "GET") (codes "/settings") (some (codes "bearer reader")))
      []).decision
    ≡ forbidden
unfolding auth_runs
reader_is_scoped = refl

settings_is_no_probe : is_health_path (codes "/settings") ≡ false
unfolding auth_runs
settings_is_no_probe = refl

auth_middleware-IsCredential_example :
    (settings.admin_password ≢ [])
    × (remaining verifier settings 5 (lockout_key verifier settings put_settings) [] ≡ none)
    × ((t : Text) × IsCredential verifier settings put_settings t)
unfolding text_eq
auth_middleware-IsCredential_example =
    auth_middleware-IsCredential verifier settings 5 6 (λ m. m) put_settings [] refl
      settings_is_no_probe refl admin_writes

abbrev guess : Request
guess = request (codes "PUT") (codes "/settings") (some (codes "Bearer wrong"))

abbrev four_failed : Traffic
four_failed = record { table = (alice, (4, 5)) ∷ []; pending = [] }

-- Both come before the first verification has ended.
abbrev at_once : List Moment
at_once = arrives 6 guess ∷ arrives 7 guess ∷ ends 8 1 ∷ arrives 9 guess ∷ ends 10 0 ∷ []

-- The fifth failure is recorded between the second request and the third, which is locked out; the
-- second is the sixth guess of the window.
two_at_once : guesses verifier settings alice four_failed at_once ≡ 2
unfolding auth_runs
two_at_once = refl

guesses-le_example :
    guesses verifier settings alice four_failed at_once
      + (4 + in_flight verifier settings alice four_failed.pending)
    < max_failures + 2
unfolding auth_runs
guesses-le_example =
    guesses-le verifier settings 2 alice 5 at_once four_failed 4 (omega arith) refl (omega arith) tt
      (omega arith)
      (
        (omega arith, omega arith, λ h. refl),
        omega arith,
        (
          (omega arith, omega arith, λ h. refl),
          omega arith,
          (
            (omega arith, omega arith),
            omega arith,
            (
              (omega arith, omega arith, λ h. refl),
              omega arith,
              ((omega arith, omega arith), omega arith, tt),
            ),
          ),
        ),
      )

-- The fifth wrong guess locks the address out, and the right password is refused then.
locked_despite_password :
    (auth_middleware verifier settings 8 9
      (λ m. m)
      put_settings
      (auth_middleware verifier settings 6 7 (λ m. m) guess ((alice, (4, 5)) ∷ [])).table).decision
    ≡ locked_out 900
unfolding auth_runs record_failure count_failure insert
locked_despite_password = refl

abbrev forged_header : Text
forged_header = codes "1.2.3.4, 10.0.0.1"
