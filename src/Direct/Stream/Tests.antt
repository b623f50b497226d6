-- ===== src/Direct/Stream/Tests.antt =====
-- Runs of the stream, and the theorem on its attempts at an input that meets its hypotheses.
use zimi_rs.Base.{
  ◌≡◌, refl, inl, inr, true, false, none, some, [], ◌∷◌, arith, codes, text_eq, ok, err, trim,
  split_once, text_keys,
}
use zimi_rs.Content.Range.{value_from}
use zimi_rs.Direct.Headers.{
  parse_u64, content_range_parts, content_range_start, content_range_total, resume_206_decision,
}
use zimi_rs.Direct.Stream.{
  Bytes, Chunk, Disk, marked, oversized, fresh_fallback, open_stream, stream_loop, settle,
  stream_into, stream_part, resume_plan,
}
use zimi_rs.Direct.Stream.Prefix.{payload}
use zimi_rs.Direct.Stream.Served.{Serves}
use zimi_rs.Direct.Stream.Resumed.{Attempt, attempt, attempts, attempts_complete}

unfoldable pub stream_runs : Unit {0}
unfolding content_range_parts content_range_start content_range_total resume_206_decision
    fresh_fallback open_stream stream_loop settle stream_into stream_part resume_plan attempt
    attempts parse_u64 text_eq value_from split_once trim payload
stream_runs = tt

parts_read : content_range_parts (codes "bytes 2-3/4") ≡ some (some 2, 4)
unfolding stream_runs
parts_read = refl

star_read : content_range_parts (codes "bytes */40") ≡ some (none, 40)
unfolding stream_runs
star_read = refl

other_unit : content_range_parts (codes "items 0-9/100") ≡ none
unfolding stream_runs
other_unit = refl

abbrev pub source : Bytes
source = 10 ∷ 20 ∷ 30 ∷ 40 ∷ []

abbrev pub good_disk : Disk
good_disk = record { removes = true; opens = true; unlinks = true; flushes = true; kept = 2 }

abbrev piece : Bytes → Chunk
piece bytes = record { bytes = ok bytes; writes = true; progress = none; observed = none }

abbrev broken : Chunk
broken = record { bytes = err tt; writes = true; progress = none; observed = none }

-- The connection breaks after three bytes, of which two are on disk.
abbrev first_try : Attempt
first_try = record {
  disk = good_disk;
  max_bytes = 100;
  reply = record {
    status = 200;
    content_range = none;
    content_length = some 4;
    body = piece (10 ∷ 20 ∷ 30 ∷ []) ∷ broken ∷ [];
  };
  again = err tt;
}

abbrev second_try : Attempt
second_try = record {
  disk = good_disk;
  max_bytes = 100;
  reply = record {
    status = 206;
    content_range = some (codes "bytes 2-3/4");
    content_length = some 2;
    body = piece (30 ∷ []) ∷ piece (40 ∷ []) ∷ [];
  };
  again = err tt;
}

two_left : attempts none (first_try ∷ []) ≡ some (10 ∷ 20 ∷ [])
unfolding stream_runs
two_left = refl

all_there :
    attempt (some (10 ∷ 20 ∷ [])) second_try
    ≡ (some source, ok (record { size = 4; total = some 4; was_cancelled = false }))
unfolding stream_runs
all_there = refl

first-Serves : Serves source first_try.reply
unfolding stream_runs
first-Serves = record {
  whole = inl (40 ∷ [], refl);
  declared = inl refl;
  partial = λ from h. cc;
  sized = tt;
  unsatisfiable = λ h. absurd (omega arith);
}

second-Serves : Serves source second_try.reply
unfolding stream_runs
second-Serves = record {
  whole = inr refl;
  declared = inr refl;
  partial = λ from h. let two : from ≡ 2 = cc in rw two ([], refl);
  sized = refl;
  unsatisfiable = λ h. absurd (omega arith);
}

attempts_complete_example : (attempt (attempts none (first_try ∷ [])) second_try).0 ≡ some source
unfolding stream_runs
attempts_complete_example =
    attempts_complete source (first_try ∷ []) second_try
      (record { size = 4; total = some 4; was_cancelled = false }) 4
      (omega arith, (first-Serves, λ h. omega arith), tt, tt)
      (omega arith, (second-Serves, λ h. cc), tt, tt) refl refl refl

-- An error page that comes with the status 416 is appended to a complete file, and then refused.
page_appended :
    stream_part good_disk 100
      (some source)
      (some 4)
      (record {
        status = 416;
        content_range = some (codes "bytes */4");
        content_length = some 2;
        body = piece (60 ∷ 61 ∷ []) ∷ [];
      })
      (err tt)
    ≡ (some (10 ∷ 20 ∷ 30 ∷ 40 ∷ 60 ∷ 61 ∷ []), err (marked (oversized 6 4)))
unfolding stream_runs
page_appended = refl
