-- ===== src/Health/Degraded.antt =====
-- src/health.rs: what the snapshot of degraded branches says after a history of searches.
use zimi_rs.Base.{
  ℕ, ◌+◌, ◌≤◌, ◌<◌, ◌^◌, ◌≡◌, refl, sym, ◌∙◌, ap, inl, inr, Bool, true, false, ◌||◌, Option, none,
  some, List, [], ◌∷◌, leb, length, if◌then◌else◌, arith, ◌=?◌, lookup, insert, lookup-insert, Text,
  text_keys, Bool-cases,
}
use zimi_rs.Health.{
  Streak, DegradationTracker, record_failure, record_success, reset, degraded_snapshot, bump,
}

pub data Event : Type 0 where
  failure success : Text → Event

unfoldable pub track : DegradationTracker → ℕ × Event → DegradationTracker
track m (now, failure branch) = record_failure now branch m
track m (now, success branch) = record_success branch m

unfoldable pub track_all : DegradationTracker → List (ℕ × Event) → DegradationTracker
track_all m [] = m
track_all m (e ∷ es) = track_all (track m e) es

-- The failures of a branch since its last success, after `n` of them.
abbrev pub count_on : Text → ℕ → ℕ × Event → ℕ
count_on branch n (now, failure other) = if other =? branch then n + 1 else n
count_on branch n (now, success other) = if other =? branch then 0 else n

unfoldable pub streak : Text → ℕ → List (ℕ × Event) → ℕ
streak branch n [] = n
streak branch n (e ∷ es) = streak branch (count_on branch n e) es

abbrev count_of : Option Streak → ℕ
count_of none = 0
count_of (some (count, last)) = count

abbrev is_there : Option Streak → Bool
is_there none = false
is_there (some s) = true

-- Some branch stands twice.
unfoldable pub stands_twice : DegradationTracker → Bool
stands_twice [] = false
stands_twice ((name, s) ∷ m) = is_there (lookup name m) || stands_twice m

stands_twice-insert :
    (branch : Text) (s : Streak) (m : DegradationTracker)
    → stands_twice m ≡ false
    → stands_twice (insert branch s m) ≡ false
unfolding stands_twice insert lookup
stands_twice-insert branch s [] h = refl
stands_twice-insert branch s ((name, t) ∷ m) h = ground (
  arith,
  lookup-insert branch name s m,
  text_keys.beq_iff name branch,
  text_keys.beq_iff branch name,
  stands_twice-insert branch s m,
)

reset-stands_twice :
    (branch : Text) (seen : Option Streak) (m : DegradationTracker)
    → stands_twice m ≡ false
    → stands_twice (reset branch seen m) ≡ false
unfolding reset
reset-stands_twice branch none m h = h
reset-stands_twice branch (some (count, last)) m h = stands_twice-insert branch (0, last) m h

track-stands_twice :
    (m : DegradationTracker) (e : ℕ × Event)
    → stands_twice m ≡ false
    → stands_twice (track m e) ≡ false
unfolding track record_failure record_success
track-stands_twice m (now, failure branch) h = stands_twice-insert branch _ m h
track-stands_twice m (now, success branch) h = reset-stands_twice branch (lookup branch m) m h

count_of-bump :
    (now : ℕ) (branch other : Text) (m : DegradationTracker)
    → count_of (lookup branch m) + 1 < 2 ^ 32
    → count_of (lookup branch (record_failure now other m))
      ≡ count_on branch (count_of (lookup branch m)) (now, failure other)
unfolding record_failure
count_of-bump now branch other m h = elim (Bool-cases (other =? branch)) [
  | inl same ↦
      let equal : other ≡ branch = (text_keys.beq_iff other branch).0 same in
      let put = lookup-insert other branch (bump now (lookup other m)) m in
      rw (put, same, equal) (bumped (lookup branch m) h)
  | inr apart ↦ rw (lookup-insert other branch (bump now (lookup other m)) m, apart) refl
]
  where
    bumped :
        (o : Option Streak)
        → count_of o + 1 < 2 ^ 32
        → count_of (some (bump now o)) ≡ count_of o + 1
    bumped none k = refl
    bumped (some (count, last)) k = ground arith

count_of-reset :
    (now : ℕ) (branch other : Text) (seen : Option Streak) (m : DegradationTracker)
    → lookup other m ≡ seen
    → count_of (lookup branch (reset other seen m))
      ≡ count_on branch (count_of (lookup branch m)) (now, success other)
unfolding reset
count_of-reset now branch other none m h = ground (arith, text_keys.beq_iff other branch)
count_of-reset now branch other (some (count, last)) m h =
    ground (arith, lookup-insert other branch (0, last) m)

count_of-track :
    (branch : Text) (m : DegradationTracker) (e : ℕ × Event)
    → count_of (lookup branch m) + 1 < 2 ^ 32
    → count_of (lookup branch (track m e)) ≡ count_on branch (count_of (lookup branch m)) e
unfolding track record_success
count_of-track branch m (now, failure other) h = count_of-bump now branch other m h
count_of-track branch m (now, success other) h =
    count_of-reset now branch other (lookup other m) m refl

-- An entry in the snapshot.
abbrev pub degraded : ℕ → Option ℕ
degraded n = if leb 3 n then some n else none

snapshot_there :
    (branch : Text) (m : DegradationTracker)
    → stands_twice m ≡ false
    → lookup branch (degraded_snapshot m) ≡ degraded (count_of (lookup branch m))
unfolding degraded_snapshot lookup stands_twice
snapshot_there branch [] h = refl
snapshot_there branch ((name, (count, last)) ∷ m) h = elim (Bool-cases (name =? branch)) [
  | inl same ↦
      let equal : name ≡ branch = (text_keys.beq_iff name branch).0 same in
      let alone : is_there (lookup branch m) ≡ false =
        ap (λ b. is_there (lookup b m)) (sym equal) ∙ ground arith in
      ground (arith, same, alone, snapshot_there branch m (ground arith))
  | inr apart ↦ ground (arith, apart, snapshot_there branch m (ground arith))
]

count_on_le : (branch : Text) (n : ℕ) (e : ℕ × Event) → count_on branch n e ≤ n + 1
count_on_le branch n (now, failure other) = ground arith
count_on_le branch n (now, success other) = ground arith

track_all_snapshot :
    (branch : Text) (m : DegradationTracker) (es : List (ℕ × Event))
    → stands_twice m ≡ false
    → count_of (lookup branch m) + length es < 2 ^ 32
    → lookup branch (degraded_snapshot (track_all m es))
      ≡ degraded (streak branch (count_of (lookup branch m)) es)
unfolding track_all streak
track_all_snapshot branch m [] h k = snapshot_there branch m h
track_all_snapshot branch m (e ∷ es) h k =
    let tracked = count_of-track branch m e (omega arith) in
    track_all_snapshot branch (track m e) es (track-stands_twice m e h)
      (omega (arith, tracked, count_on_le branch (count_of (lookup branch m)) e))
    ∙ ap (λ n. degraded (streak branch n es)) tracked

-- After any history of fewer than 2 ^ 32 calls, the snapshot names a branch exactly when three or
-- more of its calls have failed since its last success, and gives the number of these failures.
pub degraded_snapshot-streak :
    (branch : Text) (es : List (ℕ × Event))
    → length es < 2 ^ 32
    → lookup branch (degraded_snapshot (track_all [] es)) ≡ degraded (streak branch 0 es)
unfolding lookup stands_twice
degraded_snapshot-streak branch es h = track_all_snapshot branch [] es refl (omega arith)
