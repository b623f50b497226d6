-- ===== src/Downloads/Requeue/Bounded.antt =====
-- src/torrent/poller/requeue.rs: the retry is bounded, giving up is final, and the guard's map is capped.
use zimi_rs.Base.{
  ℕ, ◌+◌, ◌≤◌, ◌≡◌, refl, Bool, true, false, not, Option, none, some, [], ◌∷◌, ◌==◌, length,
  length-keep-le, Text, lookup, nat_keys, lookup-insert, length-insert-le, length-insert_old, arith,
}
use zimi_rs.Downloads.Requeue.{
  GuardEntry, Guard, max_last_error_tracked, guard_stale_after_passes, is_auth_error,
  should_give_up, is_stale, sweep_stale_guard_entries, record_entry, decide, requeue_guard_step,
}

lookup-sweep :
    (g : Guard) (j pass : ℕ) (e : GuardEntry)
    → lookup j g ≡ some e
    → pass ≤ e.last_seen + guard_stale_after_passes
    → lookup j (sweep_stale_guard_entries g pass) ≡ some e
unfolding lookup sweep_stale_guard_entries
lookup-sweep [] j pass e found fresh = cc
lookup-sweep ((i, v) ∷ g) j pass e found fresh = ground (arith, lookup-sweep g j pass e)

module _ (g : Guard) (id pass : ℕ) (entry : GuardEntry) where
  lookup-record_entry :
      (prev : Option GuardEntry) (j : ℕ) (e : GuardEntry)
      → (id == j) ≡ false
      → lookup j g ≡ some e
      → pass ≤ e.last_seen + guard_stale_after_passes
      → lookup j (record_entry g prev id entry pass) ≡ some e
  lookup-record_entry (some p) j e other found fresh = ground (arith, lookup-insert id j entry g)
  lookup-record_entry none j e other found fresh =
      let swept = lookup-sweep g j pass e found fresh in
      ground (
        arith,
        lookup-insert id j entry g,
        lookup-insert id j entry (sweep_stale_guard_entries g pass),
      )

  length-record_entry :
      (prev : Option GuardEntry)
      → lookup id g ≡ prev
      → length g ≤ max_last_error_tracked
      → length (record_entry g prev id entry pass) ≤ max_last_error_tracked
  unfolding sweep_stale_guard_entries
  length-record_entry (some p) found h = rw (length-insert_old id entry p g found) h
  length-record_entry none found h = ground (
    arith,
    length-keep-le (λ e. not (is_stale pass e)) g,
    length-insert-le id entry g,
    length-insert-le id entry (sweep_stale_guard_entries g pass),
  )

module _ (is_alphanumeric : ℕ → Bool) where
  -- Whatever the other rows do and however full the map is, an entry seen within the last hundred
  -- passes is neither swept nor changed by the step of another row.
  pub requeue_guard_step-keeps :
      (g : Guard) (id j : ℕ) (msg : Text) (pass : ℕ) (e : GuardEntry)
      → (id == j) ≡ false
      → lookup j g ≡ some e
      → pass ≤ e.last_seen + guard_stale_after_passes
      → lookup j (requeue_guard_step is_alphanumeric g id msg pass).0 ≡ some e
  unfolding requeue_guard_step
  requeue_guard_step-keeps g id j msg pass e other found fresh =
      step (should_give_up (lookup id g) msg (is_auth_error is_alphanumeric msg)) (lookup id g)
    where
      step :
          (b : Bool) (prev : Option GuardEntry) → lookup j (decide b g prev id msg pass).0 ≡ some e
      step false prev = lookup-record_entry g id pass _ prev j e other found fresh
      step true none = found
      step true (some p) = ground (arith, lookup-insert id j (record p { last_seen = pass }) g)

  -- The map never outgrows its cap.
  pub requeue_guard_step-bounded :
      (g : Guard) (id : ℕ) (msg : Text) (pass : ℕ)
      → length g ≤ max_last_error_tracked
      → length (requeue_guard_step is_alphanumeric g id msg pass).0 ≤ max_last_error_tracked
  unfolding requeue_guard_step
  requeue_guard_step-bounded g id msg pass h =
      step (should_give_up (lookup id g) msg (is_auth_error is_alphanumeric msg)) (lookup id g) refl
    where
      step :
          (b : Bool) (prev : Option GuardEntry)
          → lookup id g ≡ prev
          → length (decide b g prev id msg pass).0 ≤ max_last_error_tracked
      step false prev found = length-record_entry g id pass _ prev found h
      step true none found = h
      step true (some p) found =
          rw (length-insert_old id (record p { last_seen = pass }) p g found) h
