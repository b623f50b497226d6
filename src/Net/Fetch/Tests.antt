-- ===== src/Net/Fetch/Tests.antt =====
-- A chain over a small web: a mirror that redirects, and a host that resolves to a private address.
use zimi_rs.Base.{
  ℕ, ◌+◌, ◌≤◌, ◌≡◌, refl, false, Option, none, some, [], ◌∷◌, length, All, Text, codes, text_eq,
  if◌then◌else◌, ok, err, trim_start_by, trim_end_by, trim, eq_ignore_ascii_case,
}
use zimi_rs.Net.Ip.{ip4}
use zimi_rs.Net.Blocked.{is_blocked_ip, is_blocked_v4}
use zimi_rs.Net.Fetch.{
  Url, Web, invalid_input, resolves_blocked, assert_host_not_blocked, validate_download_url,
  resolve_download_host, pin_for_hop, redirect_step, PinnedResponse, prepare, follow_from,
  follow_pinned_get, max_redirect_hops,
}
use zimi_rs.Net.Fetch.Chain.{
  SentChecked, IsAnswered, follow_pinned_get-All, follow_pinned_get-length,
  follow_pinned_get-IsAnswered,
}
use zimi_rs.Net.Fetch.Redirect.{
  follow, error, resolves_to, GuardedClient, redirect_policy_flags, redirect_hop_ok,
  build_guarded_client, IsAllowed, build_guarded_client-IsAllowed,
}

chain_runs : Unit {0}
unfolding assert_host_not_blocked validate_download_url resolve_download_host pin_for_hop
    redirect_step prepare follow_from follow_pinned_get is_blocked_ip is_blocked_v4 text_eq
    trim_start_by trim_end_by trim eq_ignore_ascii_case
chain_runs = tt

abbrev mirror : Text
mirror = codes "http://mirror/"

abbrev inner : Text
inner = codes "http://inner/"

abbrev url_of : Text → Option Url
url_of url =
    if text_eq url mirror
    then some
        (record { scheme = codes "http"; host_str = some (codes "mirror"); known_port = some 80 })
    else some
        (record { scheme = codes "http"; host_str = some (codes "inner"); known_port = some 80 })

abbrev small_web : ℕ → Web
small_web status = record {
  parse = url_of;
  join = λ base l. some l;
  parse_ip = λ s. none;
  lookup_host = λ n host port.
      if text_eq host (codes "mirror") then ok (ip4 8 8 8 8 ∷ []) else ok (ip4 10 0 0 1 ∷ []);
  build_client = λ n pin. ok tt;
  send = λ n pin url. ok (record { status = status; location = some inner });
  allow_private = λ n. false;
}

-- The mirror points at an inner host: one request goes out, to the mirror alone.
inner_refused : follow_pinned_get (small_web 302) [] mirror ≡ (
  err (invalid_input resolves_blocked),
  record { hop = 0; url = mirror; pin = some (codes "mirror", ip4 8 8 8 8) } ∷ [],
)
unfolding chain_runs
inner_refused = refl

follow_pinned_get-All_example :
    All (SentChecked (small_web 302) []) (follow_pinned_get (small_web 302) [] mirror).1
follow_pinned_get-All_example = follow_pinned_get-All (small_web 302) [] mirror

follow_pinned_get-length_example :
    length (follow_pinned_get (small_web 302) [] mirror).1 ≤ 1 + max_redirect_hops
follow_pinned_get-length_example = follow_pinned_get-length (small_web 302) [] mirror

abbrev found_page : PinnedResponse
found_page = record {
  url = mirror;
  client = some (codes "mirror", ip4 8 8 8 8);
  response = record { status = 200; location = some inner };
}

page_found : (follow_pinned_get (small_web 200) [] mirror).0 ≡ ok found_page
unfolding chain_runs
page_found = refl

follow_pinned_get-IsAnswered_example :
    IsAnswered (small_web 200) [] (follow_pinned_get (small_web 200) [] mirror).1 found_page
follow_pinned_get-IsAnswered_example =
    follow_pinned_get-IsAnswered (small_web 200) [] mirror found_page page_found

abbrev parsed_mirror : Url
parsed_mirror = record {
  scheme = codes "http";
  host_str = some (codes "mirror");
  known_port = some 80;
}

abbrev parsed_inner : Url
parsed_inner = record {
  scheme = codes "http";
  host_str = some (codes "inner");
  known_port = some 80;
}

abbrev guarded_client : GuardedClient
guarded_client = record {
  policy = redirect_policy_flags (small_web 302) false false;
  resolve = none;
}

-- The policy of a client resolves a name, and refuses the inner host.
inner_rejected : guarded_client.policy 0 inner parsed_inner ≡ error (resolves_to (ip4 10 0 0 1))
unfolding chain_runs redirect_hop_ok
inner_rejected = refl

mirror_followed : guarded_client.policy 0 mirror parsed_mirror ≡ follow
unfolding chain_runs redirect_hop_ok
mirror_followed = refl

client_built : build_guarded_client (small_web 302) mirror false false none ≡ ok guarded_client
unfolding chain_runs build_guarded_client
client_built = refl

build_guarded_client-IsAllowed_example : IsAllowed (small_web 302) false false 0 parsed_mirror
unfolding text_eq
build_guarded_client-IsAllowed_example =
    build_guarded_client-IsAllowed (small_web 302) false false mirror none guarded_client 0 mirror
      parsed_mirror client_built mirror_followed refl
