-- ===== src/Access/Lockout/Tests.antt =====
-- Runs of the lockout table, and the theorems at inputs that meet their hypotheses.
use zimi_rs.Base.{
  ℕ, ◌+◌, ◌-◌, ◌≤◌, ◌≡◌, refl, true, false, none, some, List, [], ◌∷◌, arith, length, lookup,
  insert, remove, if◌then◌else◌, ltb, leb, ◌&&◌,
}
use zimi_rs.Net.Ip.{IpAddr, ip4, ip_keys, beq_ip}
use zimi_rs.Access.Lockout.{
  max_failures, max_tracked, window, elapsed, lockout_remaining, is_locked_out, make_room,
  count_failure, record_failure, record_success,
}
use zimi_rs.Access.Lockout.Bounded.{record_failure-bounded}
use zimi_rs.Access.Lockout.History.{
  Event, failure, success, record_event, record_events, observe_all, fails,
  record_events-observe_all, lockout_remaining_streak,
}

lockout_runs : Unit {0}
unfolding lockout_remaining is_locked_out make_room count_failure record_failure record_success
    record_event record_events fails lookup insert remove beq_ip
lockout_runs = tt

abbrev alice : IpAddr
alice = ip4 10 0 0 1

abbrev bob : IpAddr
bob = ip4 10 0 0 2

abbrev five : List (ℕ × Event)
five =
    (6, failure bob)
    ∷ (7, failure alice)
    ∷ (8, failure alice)
    ∷ (9, success bob)
    ∷ (9, failure alice)
    ∷ (10, failure alice)
    ∷ []

locked_at_five : is_locked_out 11 alice (record_events [] ((5, failure alice) ∷ five)) ≡ true
unfolding lockout_runs
locked_at_five = refl

other_not_locked : is_locked_out 11 bob (record_events [] ((5, failure alice) ∷ five)) ≡ false
unfolding lockout_runs
other_not_locked = refl

record_failure-bounded_example : length (record_failure 5 alice ((bob, (1, 2)) ∷ [])) ≤ max_tracked
record_failure-bounded_example = record_failure-bounded 5 alice ((bob, (1, 2)) ∷ []) (omega arith)

record_events-observe_all_example :
    lookup alice (record_events [] ((5, failure alice) ∷ five))
    ≡ observe_all alice (lookup alice []) ((5, failure alice) ∷ five)
record_events-observe_all_example =
    record_events-observe_all alice [] ((5, failure alice) ∷ five) (omega arith)

lockout_remaining_streak_example :
    lockout_remaining 100 alice (record_events [] ((5, failure alice) ∷ five)) ≡ (
      if leb max_failures (1 + fails alice five) && ltb (elapsed 100 5) window
      then some (window - elapsed 100 5)
      else none)
unfolding lookup
lockout_remaining_streak_example =
    lockout_remaining_streak alice 5 100 [] five refl (omega arith) (ground arith)
