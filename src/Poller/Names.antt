-- ===== src/Poller/Names.antt =====
-- src/torrent/mod.rs, `is_direct_zim_url`, and src/torrent/files.rs, `validate_download_name`.
pub mod Safe
use zimi_rs.Base.{
  Bool, ◌||◌, List, [], ◌∷◌, ◌==◌, ltb, reverse, map, if◌then◌else◌, Text, codes, text_eq, trim,
  contains, starts_with, to_ascii_lower, split_by, Result, ok, err,
}
use zimi_rs.Content.Utf8.{byte_len}

abbrev first_piece : List Text → Text
first_piece [] = []
first_piece (p ∷ ps) = p

-- Before the first `?` or `#`.
unfoldable pub strip_query_fragment : Text → Text
unfolding split_by
strip_query_fragment url = first_piece (split_by (λ c. c == b'?' || c == b'#') url)

-- Of the capital letters only the ASCII ones matter to the suffix.
unfoldable pub is_direct_zim_url : Text → Bool
unfolding trim strip_query_fragment starts_with to_ascii_lower
is_direct_zim_url url =
    starts_with (reverse (codes ".zim"))
      (reverse (strip_query_fragment (map to_ascii_lower (trim url))))

pub data NameError : Type 0 where
  empty_name too_long separator dot_dot leading_dot : NameError

-- `str::contains` of a text.
unfoldable pub holds_text : Text → Text → Bool
unfolding starts_with
holds_text needle [] = starts_with needle []
holds_text needle (c ∷ s) = starts_with needle (c ∷ s) || holds_text needle s

unfoldable pub validate_trimmed : Text → Result (Unit {0}) NameError
unfolding contains holds_text starts_with text_eq
validate_trimmed name =
    if text_eq name []
    then err empty_name
    else if ltb 255 (byte_len name)
    then err too_long
    else if contains b'/' name || contains b'\\' name || contains 0 name
    then err separator
    else if holds_text (codes "..") name
    then err dot_dot
    else if starts_with (codes ".") name
    then err leading_dot
    else ok tt

unfoldable pub validate_download_name : Text → Result (Unit {0}) NameError
unfolding trim validate_trimmed
validate_download_name name = validate_trimmed (trim name)
