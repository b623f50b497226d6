-- ===== src/Content/Raw/Tests.antt =====
-- A request for a raw entry of a small archive.
use zimi_rs.Base.{
  ℕ, ◌≡◌, refl, some, none, [], ◌∷◌, codes, ok, text_eq, trim, trim_start_by, trim_end_by,
  is_whitespace, split_once, strip_prefix, contains, split,
}
use zimi_rs.Content.Range.{
  value_from, parse_range_num, parse_single_range, slice_range_bytes, if_none_match_matches,
}
use zimi_rs.Content.Raw.{
  Archive, body_at, read_raw_entry_blocking, unchanged, partial, respond, raw_content,
}
use zimi_rs.Content.Raw.Faithful.{Carries, IsCapped, raw_content-Carries}

raw_runs : Unit {0}
unfolding value_from parse_range_num parse_single_range slice_range_bytes if_none_match_matches
    body_at read_raw_entry_blocking respond raw_content text_eq trim trim_start_by trim_end_by
    is_whitespace split_once strip_prefix contains split
raw_runs = tt

abbrev small_archive : Archive ℕ ℕ
small_archive = record {
  etag = some (codes "v1");
  find_entry = λ path. ok (some 0);
  resolve = λ e. ok e;
  entry_content = λ r. ok (some (11 ∷ 22 ∷ 33 ∷ 44 ∷ []));
  mapping = λ r. none;
}

middle_bytes :
    raw_content small_archive (codes "A/x") (some (codes "bytes=1-2")) none
    ≡ ok (partial 1 2 4 (22 ∷ 33 ∷ []) (some (codes "v1")))
unfolding raw_runs
middle_bytes = refl

revalidated_tag :
    raw_content small_archive (codes "A/x") none (some (codes "v0, v1"))
    ≡ ok (unchanged (codes "v1"))
unfolding raw_runs
revalidated_tag = refl

raw_content-Carries_example :
    Carries
      (11 ∷ 22 ∷ 33 ∷ 44 ∷ [])
      (some (codes "v1"))
      (raw_content small_archive (codes "A/x") (some (codes "bytes=1-2")) none)
    × IsCapped (read_raw_entry_blocking small_archive (codes "A/x") (some (codes "bytes=1-2")) none)
unfolding body_at
raw_content-Carries_example =
    raw_content-Carries small_archive (codes "A/x") (some (codes "bytes=1-2")) none
      (11 ∷ 22 ∷ 33 ∷ 44 ∷ []) refl refl
