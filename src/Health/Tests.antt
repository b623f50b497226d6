-- ===== src/Health/Tests.antt =====
-- Runs of the probes and the tracker, and the theorems at inputs that meet their hypotheses.
use zimi_rs.Base.{
  arith, ℕ, ◌≡◌, refl, inl, inr, true, false, none, some, List, [], ◌∷◌, ok, err, Text, codes,
  lookup, insert, text_eq, text_keys,
}
use zimi_rs.Health.{
  new_probes, fresh, probe_db, degraded_snapshot, record_failure, record_success, reset,
}
use zimi_rs.Health.Probes.{Call, qbit_call, db_call, steps, probe_db_staleness}
use zimi_rs.Health.Degraded.{
  Event, failure, success, streak, degraded, track, track_all, degraded_snapshot-streak,
}

-- A value one second old is fresh, one of two seconds is not, and neither is one from the future.
fresh_young : fresh (some (true, 1_000_000_000)) 2_000_000_000 ≡ some true
unfolding fresh
fresh_young = refl

fresh_old : fresh (some (true, 1_000_000_000)) 3_000_000_000 ≡ none
unfolding fresh
fresh_old = refl

fresh_future : fresh (some (true, 5)) 4 ≡ none
unfolding fresh
fresh_future = refl

-- The database is up at 1 s, and is down when it is probed again at 4 s.
abbrev outage : List (Call Text)
outage =
    db_call new_probes 1_000_000_000 1_000_000_001 (ok (ok tt))
    ∷ qbit_call new_probes 2_000_000_000 2_000_000_001 none
    ∷ db_call new_probes 4_000_000_000 4_000_000_001 (err (codes "timed out"))
    ∷ []

probe_db_staleness_example :
    (probe_db {E = Text}
      (steps new_probes outage)
      new_probes
      5_000_000_000
      5_000_000_001
      (ok (err (codes "gone")))).1
    ≡ false
probe_db_staleness_example =
    probe_db_staleness false 2_000_000_000 5_000_000_000 5_000_000_001 outage new_probes
      (ok (err (codes "gone"))) (inr (omega arith), (tt, (inl refl, tt))) refl (omega arith)

abbrev searches : List (ℕ × Event)
searches =
    (1, failure (codes "vector"))
    ∷ (2, success (codes "vector"))
    ∷ (3, failure (codes "vector"))
    ∷ (4, failure (codes "title"))
    ∷ (5, failure (codes "vector"))
    ∷ (6, failure (codes "vector"))
    ∷ []

only_vector : degraded_snapshot (track_all [] searches) ≡ (codes "vector", 3) ∷ []
unfolding degraded_snapshot track_all track record_failure record_success reset lookup insert
    text_eq
only_vector = refl

degraded_snapshot-streak_example :
    lookup (codes "vector") (degraded_snapshot (track_all [] searches))
    ≡ degraded (streak (codes "vector") 0 searches)
degraded_snapshot-streak_example = degraded_snapshot-streak (codes "vector") searches (omega arith)
