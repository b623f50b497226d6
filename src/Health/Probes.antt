-- ===== src/Health/Probes.antt =====
-- src/health.rs: how stale an answer of the database's probe can be.
use zimi_rs.Base.{
  ℕ, ◌+◌, ◌≤◌, ◌≡◌, ◌⊎◌, inl, inr, Bool, Option, none, some, List, [], ◌∷◌, All, arith, Result,
  Text, Option-cases,
}
use zimi_rs.Health.{
  ProbeState, ttl, new_probes, fresh, is_up, is_alive, cached_or, probe_qbit, probe_db,
}

-- A call with the state it has read and the instants of its read and of its write.
pub data Call (E : Type 0) : Type 0 where
  qbit_call : (before : ProbeState) (now later : ℕ) → Option (Result Text E) → Call E
  db_call : (before : ProbeState) (now later : ℕ) → Result (Result (Unit {0}) E) E → Call E

module _ {E : Type 0} where
  unfoldable pub step : ProbeState → Call E → ProbeState
  step s (qbit_call before now later version) = (probe_qbit before s now later version).0
  step s (db_call before now later acquired) = (probe_db before s now later acquired).0

  unfoldable pub steps : ProbeState → List (Call E) → ProbeState
  steps s [] = s
  steps s (c ∷ cs) = steps (step s c) cs

  -- A probe of the database that is recorded after `since` finds `v`.
  abbrev pub Finds : Bool → ℕ → Call E → Type 0
  Finds v since (qbit_call before now later version) = Unit
  Finds v since (db_call before now later acquired) = (is_alive acquired ≡ v) ⊎ (later ≤ since)

abbrev IsSettled : Bool → ℕ → Option (Bool × ℕ) → Type 0
IsSettled v since none = Unit
IsSettled v since (some (w, t)) = (w ≡ v) ⊎ (t ≤ since)

cached_or-IsSettled :
    (v : Bool) (since : ℕ) (cached : Option Bool) (s : ProbeState) (probed : ProbeState × Bool)
    → IsSettled v since s.db
    → IsSettled v since probed.0.db
    → IsSettled v since (cached_or cached s probed).0.db
unfolding cached_or
cached_or-IsSettled v since none s probed h k = k
cached_or-IsSettled v since (some w) s probed h k = h

module _ {E : Type 0} (v : Bool) (since : ℕ) where
  step-IsSettled :
      (s : ProbeState) (c : Call E)
      → IsSettled v since s.db
      → Finds v since c
      → IsSettled v since (step s c).db
  unfolding step probe_qbit probe_db
  step-IsSettled s (qbit_call before now later version) h k =
      cached_or-IsSettled v since (fresh before.qbit now) s
        (record s { qbit = some (is_up version, later) }, is_up version) h h
  step-IsSettled s (db_call before now later acquired) h k =
      cached_or-IsSettled v since (fresh before.db now) s
        (record s { db = some (is_alive acquired, later) }, is_alive acquired) h k

  steps-IsSettled :
      (s : ProbeState) (cs : List (Call E))
      → IsSettled v since s.db
      → All (Finds v since) cs
      → IsSettled v since (steps s cs).db
  unfolding steps
  steps-IsSettled s [] h k = h
  steps-IsSettled s (c ∷ cs) h k = steps-IsSettled (step s c) cs (step-IsSettled s c h k.0) k.1

-- A settled slot is out of date or says `v` once the time to live has passed.
fresh-IsSettled :
    (v w : Bool) (since now : ℕ) (slot : Option (Bool × ℕ))
    → IsSettled v since slot
    → since + ttl ≤ now
    → fresh slot now ≡ some w
    → w ≡ v
unfolding fresh
fresh-IsSettled v w since now none h late cached = ground arith
fresh-IsSettled v w since now (some (u, t)) (inl same) late cached = ground arith
fresh-IsSettled v w since now (some (u, t)) (inr old) late cached = ground arith

-- Whatever calls have run, in whatever interleaving, when every probe of the database recorded after
-- some instant has found the same state, up or down, and a call's own probe would, then a call that
-- comes at least the time to live after that instant answers that state.
pub probe_db_staleness :
    {E : Type 0} (v : Bool) (since now later : ℕ) (calls : List (Call E)) (after : ProbeState)
    (acquired : Result (Result (Unit {0}) E) E)
    → All (Finds v since) calls
    → is_alive acquired ≡ v
    → since + ttl ≤ now
    → (probe_db (steps new_probes calls) after now later acquired).1 ≡ v
unfolding probe_db cached_or
probe_db_staleness v since now later calls after acquired found own late =
    let s = steps new_probes calls in
    let settled = steps-IsSettled v since new_probes calls tt found in
    elim (Option-cases (fresh s.db now)) [
      | inl absent ↦ rw absent own
      | inr (w, cached) ↦ rw cached (fresh-IsSettled v w since now s.db settled late cached)
    ]
