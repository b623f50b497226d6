-- ===== src/Catalog/Tests.antt =====
-- Runs of the catalog, and the theorems at inputs that meet their hypotheses.
use zimi_rs.Base.{
  ℕ, ◌≡◌, refl, arith, Option, none, some, List, [], ◌∷◌, ◌++◌, lookup, insert, Text, codes,
  text_eq, text_keys, split, split_by, strip_prefix, starts_with, to_ascii_lower, trim,
  trim_start_by, trim_end_by, is_whitespace,
}
use zimi_rs.Content.Utf8.{byte_len, floor_char_boundary, take_bytes, drop_bytes, rfind}
use zimi_rs.Content.Range.{value_from}
use zimi_rs.Direct.Headers.{parse_u64}
use zimi_rs.Poller.Names.{strip_query_fragment, holds_text}
use zimi_rs.Catalog.Digest.{
  hex_sha256, hex_bytes, parse_digest, IfSome, IsNormal, parse_digest-IsNormal,
}
use zimi_rs.Catalog.Names.{
  parse_date_tag, base_and_version, prefix7, candidate_rank, catalog_name_from_url, text_gt,
}
use zimi_rs.Catalog.Names.Tagged.{month_tag, day_tag, digits_tag, base_and_version-tagged}
use zimi_rs.Catalog.Updates.{
  OpdsLink, OpdsEntry, OpdsUpdate, Local, download_link, download_url, is_newer, best,
  download_digest, candidate, index_from, candidate_index, updates_from, find_updates,
}
use zimi_rs.Catalog.Updates.Indexed.{of_base, scan, per_pair, find_updates-per_pair}
use zimi_rs.Catalog.Updates.Newest.{AreNewest, find_updates-AreNewest}

feed_runs : Unit {0}
unfolding text_eq split split_by strip_prefix starts_with to_ascii_lower trim trim_start_by
    trim_end_by is_whitespace byte_len floor_char_boundary take_bytes drop_bytes rfind parse_u64
    value_from strip_query_fragment holds_text hex_sha256 hex_bytes parse_digest download_link
    download_url parse_date_tag base_and_version prefix7 candidate_rank catalog_name_from_url
    text_gt is_newer best download_digest candidate lookup insert index_from candidate_index
    updates_from find_updates of_base scan per_pair
feed_runs = tt

month_read : base_and_version (codes "wiki_en_2024-06") ≡ (codes "wiki_en", some (2024, 6))
unfolding feed_runs
month_read = refl

digits_read : base_and_version (codes "wiki_202406") ≡ (codes "wiki", some (2024, 6))
unfolding feed_runs
digits_read = refl

no_date : base_and_version (codes "wiki_maxi") ≡ (codes "wiki_maxi", none)
unfolding feed_runs
no_date = refl

name_read : catalog_name_from_url (codes "https://e/W_2024-06.ZIM?x=1") ≡ some (codes "w_2024-06")
unfolding feed_runs
name_read = refl

-- The segment after the last slash is taken before the query is dropped.
name_lost : catalog_name_from_url (codes "https://e/w.zim?from=a/b") ≡ none
unfolding feed_runs
name_lost = refl

-- An undated entry with a later month ranks above a dated one.
undated_above : candidate_rank none (some (codes "2025-01-01T00")) ≡ (2025, 1)
unfolding feed_runs
undated_above = refl

-- 32 bytes, whatever the text.
abbrev thirty_two : List ℕ
thirty_two =
    171 ∷ 1 ∷ 2 ∷ 3 ∷ 4 ∷ 5 ∷ 6 ∷ 7 ∷ 8 ∷ 9 ∷ 10 ∷ 11 ∷ 12 ∷ 13 ∷ 14 ∷ 15 ∷ 16 ∷ 17 ∷ 18 ∷ 19 ∷ 20
    ∷ 21 ∷ 22 ∷ 23 ∷ 24 ∷ 25 ∷ 26 ∷ 27 ∷ 28 ∷ 29 ∷ 30 ∷ 31 ∷ []

abbrev small_decode : Text → Option (List ℕ)
small_decode s = some thirty_two

parse_digest-IsNormal_example :
    IfSome IsNormal (parse_digest small_decode none (some (codes "qwE=")))
parse_digest-IsNormal_example =
    parse_digest-IsNormal small_decode (λ s. ground arith) none (some (codes "qwE="))

abbrev zim_link : Text → OpdsLink
zim_link url = record { rel = none; href = some url; media_type = none; hash = none; digest = none }

abbrev entry_at : Text → OpdsEntry
entry_at url = record {
  id = none;
  title = none;
  updated = some (codes "2024-09-01");
  links = zim_link url ∷ [];
}

abbrev small_feed : List OpdsEntry
small_feed =
    entry_at (codes "https://e/w_2024-06.zim")
    ∷ entry_at (codes "https://e/w_2025-01.zim")
    ∷ entry_at (codes "https://e/v_2024-01.zim")
    ∷ entry_at (codes "https://e/W_202501.zim")
    ∷ []

abbrev small_library : List Local
small_library =
    (codes "w_2023-05", none) ∷ (codes "v_2024-01", none) ∷ (codes "v", some (codes "2024-08")) ∷ []

abbrev found : Text → Text → Text → OpdsUpdate
found l n url = record {
  local_name = l;
  catalog_name = n;
  title = none;
  download_url = url;
  digest = none;
}

two_found :
    find_updates small_decode small_feed small_library
    ≡ found (codes "w_2023-05") (codes "w_2025-01") (codes "https://e/w_2025-01.zim")
      ∷ found (codes "v") (codes "v_2024-01") (codes "https://e/v_2024-01.zim")
      ∷ []
unfolding feed_runs
two_found = refl

find_updates-per_pair_example :
    find_updates small_decode small_feed small_library
    ≡ per_pair small_decode small_feed small_library
find_updates-per_pair_example = find_updates-per_pair small_decode small_feed small_library

find_updates-AreNewest_example :
    AreNewest small_decode small_feed small_library
      (find_updates small_decode small_feed small_library)
find_updates-AreNewest_example = find_updates-AreNewest small_decode small_feed small_library

abbrev wiki : Text
wiki = codes "wiki_en"

base_and_version-tagged_example :
    (base_and_version (wiki ++ (b'_' ∷ month_tag 2024 6)) ≡ (wiki, some (2024, 6)))
    × (base_and_version (wiki ++ (b'_' ∷ day_tag 2024 6 15)) ≡ (wiki, some (2024, 6)))
    × (base_and_version (wiki ++ (b'_' ∷ digits_tag 2024 6)) ≡ (wiki, some (2024, 6)))
base_and_version-tagged_example = base_and_version-tagged wiki 2024 6 15 (omega arith) (omega arith)
