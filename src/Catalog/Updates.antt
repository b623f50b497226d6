-- ===== src/Catalog/Updates.antt =====
-- src/torrent/opds.rs: the updates that a catalog offers for the local archives, `find_updates`, over its
-- index by name. The base64 decoder (crate base64) is a parameter.
pub mod Indexed
pub mod Newest
use zimi_rs.Base.{
  ℕ, ◌+◌, Bool, true, false, not, ◌&&◌, ◌||◌, Option, none, some, List, [], ◌∷◌, ◌++◌, ◌==◌, ltb,
  leb, min, all, find, map, reverse, if◌then◌else◌, is_some, lookup, insert, Text, codes, text_eq,
  text_keys, split, strip_prefix, starts_with, to_ascii_lower,
}
use zimi_rs.Content.Utf8.{byte_len, floor_char_boundary, take_bytes, drop_bytes, rfind}
use zimi_rs.Content.Range.{is_ascii_digit}
use zimi_rs.Direct.Headers.{parse_u64}
use zimi_rs.Poller.Names.{strip_query_fragment, holds_text}
use zimi_rs.Catalog.Digest.{parse_digest, and_then}
use zimi_rs.Catalog.Names.{
  Version, version_gt, text_gt, prefix7, base_and_version, candidate_rank, catalog_name_from_url,
}

pub record OpdsLink : Type 0 where
  pub rel : Option Text
  pub href : Option Text
  pub media_type : Option Text
  pub hash : Option Text
  pub digest : Option Text

pub record OpdsEntry : Type 0 where
  pub id : Option Text
  pub title : Option Text
  pub updated : Option Text
  pub links : List OpdsLink

pub record OpdsUpdate : Type 0 where
  pub local_name : Text
  pub catalog_name : Text
  pub title : Option Text
  pub download_url : Text
  pub digest : Option Text

pub record UpdateCandidate : Type 0 where
  pub rank : Version
  pub entry : OpdsEntry
  pub cat_version : Option Version
  pub name : Text
  pub url : Text
  pub digest : Option Text

abbrev ends_with : Text → Text → Bool
ends_with suffix s = starts_with (reverse suffix) (reverse s)

abbrev mentions : Text → Option Text → Bool
mentions word none = false
mentions word (some s) = holds_text word s

abbrev is_download : OpdsLink → Option Text → Bool
is_download l none = false
is_download l (some href) =
    mentions (codes "acquisition") l.rel
    || ends_with (codes ".zim") href
    || mentions (codes "zim") l.media_type

unfoldable pub download_link : OpdsEntry → Option OpdsLink
unfolding holds_text starts_with
download_link e = find (λ l. is_download l l.href) e.links

unfoldable pub download_url : OpdsEntry → Option Text
unfolding download_link
download_url e = and_then (download_link e) (λ l. l.href)

abbrev later : Option Text → Option Text → Bool
later none local_date = false
later (some u) none = false
later (some u) (some d) = text_gt (prefix7 u) (prefix7 d)

unfoldable pub is_newer : Option Version → Option Text → UpdateCandidate → Bool
unfolding prefix7 text_gt
is_newer none local_date c = later c.entry.updated local_date
is_newer (some lv) local_date c = elim c.cat_version [
  | none ↦ later c.entry.updated local_date
  | some cv ↦ version_gt cv lv
]

abbrev pub base_of : Text → Text
base_of name = map to_ascii_lower (base_and_version name).0

abbrev pub Index : Type 0
Index = List (Text × List UpdateCandidate)

abbrev pub listed : Option (List UpdateCandidate) → List UpdateCandidate
listed none = []
listed (some cs) = cs

-- The newest so far; a tie keeps the first.
abbrev pub better : Option UpdateCandidate → UpdateCandidate → Option UpdateCandidate
better none c = some c
better (some b) c = if version_gt c.rank b.rank then some c else some b

abbrev pub Local : Type 0
Local = Text × Option Text

unfoldable pub best :
    Option Version
    → Option Text
    → Option UpdateCandidate
    → List UpdateCandidate
    → Option UpdateCandidate
unfolding is_newer
best lv date acc [] = acc
best lv date acc (c ∷ cs) = best lv date (if is_newer lv date c then better acc c else acc) cs

abbrev pub update_of : Text → UpdateCandidate → OpdsUpdate
update_of local_name c = record {
  local_name = local_name;
  catalog_name = c.name;
  title = c.entry.title;
  download_url = c.url;
  digest = c.digest;
}

abbrev pub push_update : Text → Option UpdateCandidate → List OpdsUpdate → List OpdsUpdate
push_update local_name none rest = rest
push_update local_name (some c) rest = update_of local_name c ∷ rest

module _ (decode : Text → Option (List ℕ)) where
  unfoldable pub download_digest : OpdsEntry → Option Text
  unfolding download_link parse_digest
  download_digest e = and_then (download_link e) (λ l. parse_digest decode l.hash l.digest)

  abbrev candidate_named : OpdsEntry → Text → Option Text → Option UpdateCandidate
  candidate_named e url none = none
  candidate_named e url (some name) =
      let v = (base_and_version name).1 in
      some (record {
        rank = candidate_rank v e.updated;
        entry = e;
        cat_version = v;
        name = name;
        url = url;
        digest = download_digest e;
      })

  abbrev candidate_at : OpdsEntry → Option Text → Option UpdateCandidate
  candidate_at e none = none
  candidate_at e (some url) = candidate_named e url (catalog_name_from_url url)

  -- What an entry offers, or nothing when it has no URL or no name.
  unfoldable pub candidate : OpdsEntry → Option UpdateCandidate
  unfolding download_url catalog_name_from_url base_and_version candidate_rank
  candidate e = candidate_at e (download_url e)

  abbrev pub push : Index → Option UpdateCandidate → Index
  push m none = m
  push m (some c) = insert (base_of c.name) (listed (lookup (base_of c.name) m) ++ (c ∷ [])) m

  unfoldable pub index_from : Index → List OpdsEntry → Index
  unfolding insert lookup to_ascii_lower candidate base_and_version
  index_from m [] = m
  index_from m (e ∷ es) = index_from (push m (candidate e)) es

  unfoldable pub candidate_index : List OpdsEntry → Index
  unfolding index_from
  candidate_index entries = index_from [] entries

  abbrev pub best_for : Index → Local → Option UpdateCandidate
  best_for by_base (name, date) =
      best (base_and_version name).1 date none (listed (lookup (base_of name) by_base))

  unfoldable pub updates_from : Index → List Local → List OpdsUpdate
  unfolding lookup best base_and_version to_ascii_lower
  updates_from by_base [] = []
  updates_from by_base (l ∷ ls) = push_update l.0 (best_for by_base l) (updates_from by_base ls)

  unfoldable pub find_updates : List OpdsEntry → List Local → List OpdsUpdate
  unfolding candidate_index updates_from
  find_updates entries local = updates_from (candidate_index entries) local
