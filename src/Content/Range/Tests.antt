-- ===== src/Content/Range/Tests.antt =====
-- Runs of the header parser, and the theorems at inputs that meet their hypotheses.
use zimi_rs.Base.{
  ◌≡◌, refl, true, false, some, none, ◌∷◌, ◌++◌, codes, text_eq, trim, trim_start_by, trim_end_by,
  is_whitespace, split, split_once, strip_prefix, contains, arith,
}
use zimi_rs.Content.Range.{
  slice, value, value_from, parse_range_num, parse_single_range, slice_range_bytes,
  if_none_match_matches,
}
use zimi_rs.Content.Range.Exact.{range_of, parse_single_range_exact}

range_runs : Unit {0}
unfolding value_from parse_range_num parse_single_range slice_range_bytes if_none_match_matches
    text_eq trim trim_start_by trim_end_by is_whitespace split split_once strip_prefix contains
range_runs = tt

last_five : parse_single_range (codes "bytes=-5") 100 ≡ some (slice 95 99)
unfolding range_runs
last_five = refl

from_ten : parse_single_range (codes " bytes=10- ") 100 ≡ some (slice 10 99)
unfolding range_runs
from_ten = refl

end_overflows : parse_single_range (codes "bytes=7-18446744073709551616") 100 ≡ some (slice 7 99)
unfolding range_runs
end_overflows = refl

two_ranges : parse_single_range (codes "bytes=0-1,4-5") 100 ≡ none
unfolding range_runs
two_ranges = refl

any_tag : if_none_match_matches (codes "\"a\", \"b\"") (codes "\"b\"") ≡ true
unfolding range_runs
any_tag = refl

weak_tag : if_none_match_matches (codes "W/\"b\"") (codes "\"b\"") ≡ false
unfolding range_runs
weak_tag = refl

parse_single_range_exact_example :
    parse_single_range (codes "bytes=" ++ (codes "10" ++ (b'-' ∷ codes "500"))) 100
    ≡ some (range_of 100 (value (codes "10")) (value (codes "500")))
unfolding text_eq
parse_single_range_exact_example =
    parse_single_range_exact (codes "10") (codes "500") 100 refl refl refl refl (omega arith)
      (omega arith)
