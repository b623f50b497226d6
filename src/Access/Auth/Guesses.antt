-- ===== src/Access/Auth/Guesses.antt =====
-- src/serve/middleware.rs and src/access/lockout.rs: how many guesses an address gets.
use zimi_rs.Base.{
  ℕ, ◌+◌, ◌≤◌, ◌<◌, ◌%◌, ◌^◌, ◌≡◌, refl, ◌∙◌, ◌⊎◌, inl, inr, Bool, true, false, not, ◌&&◌, Option,
  none, some, List, [], ◌∷◌, ltb, leb, length, lookup, ◌=?◌, beq_refl, if◌then◌else◌, if-rule, All,
  zero, suc, ap, subst, Option-cases, text_eq, arith, Bool-cases,
}
use zimi_rs.Net.Ip.{IpAddr, ip_keys}
use zimi_rs.Access.Lockout.{
  Table, max_failures, max_tracked, window, elapsed, remaining_of, lockout_remaining,
}
use zimi_rs.Access.Lockout.History.{
  failure, success, record_event, observe, fail, record_event-lookup, length-record_event,
}
use zimi_rs.Access.Auth.{
  Settings, Request, Verifier, is_health_path, is_password_mode, AuthOutcome, full_access,
  read_only_access, no_access, Decision, run_next, misconfigured, presented, verified, lockout_key,
  remaining, decide, unless_locked, is_open, gate, judge,
}
use zimi_rs.Access.Auth.Traffic.{Traffic, Moment, arrives, ends, put_back, pick, ended, step}

abbrev pub is_key : IpAddr → Option IpAddr → Bool
is_key ip none = false
is_key ip (some k) = k =? ip

some_injective : {a b : IpAddr} → some a ≡ some b → a ≡ b
some_injective h = cc

module _ (w : Verifier) (s : Settings) where
  abbrev pub own : IpAddr → Request → ℕ
  own ip r = if is_key ip (lockout_key w s r) then 1 else 0

  -- The requests of the address `ip` whose credential is being verified.
  unfoldable pub in_flight : IpAddr → List Request → ℕ
  in_flight ip [] = 0
  in_flight ip (r ∷ rs) = own ip r + in_flight ip rs

  abbrev pub looked_at : Option Decision → ℕ
  looked_at none = 1
  looked_at (some d) = 0

  abbrev pub guess_at : IpAddr → Traffic → Moment → ℕ
  guess_at ip st (arrives now r) =
      if is_key ip (lockout_key w s r) then looked_at (gate w s now r st.table) else 0
  guess_at ip st (ends now i) = 0

  -- How often a credential of the address `ip` is looked at, over a history of all addresses.
  unfoldable pub guesses : IpAddr → Traffic → List Moment → ℕ
  guesses ip st [] = 0
  guesses ip st (e ∷ es) = guess_at ip st e + guesses ip (step w s st e) es

  -- The request is not of the address, or has no valid credential.
  abbrev pub IsWrong : IpAddr → Request → Type 0
  IsWrong ip r = is_key ip (lockout_key w s r) ≡ true → verified w s (presented w s r) ≡ no_access

  -- All within the window that opened at `t`, with no valid credential of the address.
  abbrev pub IsGuess : IpAddr → ℕ → Moment → Type 0
  IsGuess ip t (arrives now r) = (t ≤ now) × (now < t + window) × IsWrong ip r
  IsGuess ip t (ends now i) = (t ≤ now) × (now < t + window)

  -- At most `k` requests of the address are in flight at once.
  unfoldable pub IsGuessing : ℕ → IpAddr → ℕ → Traffic → List Moment → Type 0
  IsGuessing k ip t st [] = Unit
  IsGuessing k ip t st (e ∷ es) =
      IsGuess ip t e
      × (in_flight ip (step w s st e).pending ≤ k)
      × IsGuessing k ip t (step w s st e) es

  -- What a request does to the table.
  abbrev Touched : ℕ → Option IpAddr → Table → Table → Type 0
  Touched now key m m' =
      (m' ≡ m)
      ⊎ ((k : IpAddr) × (key ≡ some k)
          × ((m' ≡ record_event m (now, failure k)) ⊎ (m' ≡ record_event m (now, success k))))

  module _ (now : ℕ) (r : Request) (m : Table) where
    decide-Touched :
        (key : Option IpAddr) (o : AuthOutcome) → Touched now key m (decide w s now r key m o).table
    unfolding record_event
    decide-Touched none full_access = inl refl
    decide-Touched none read_only_access = inl refl
    decide-Touched none no_access = inl refl
    decide-Touched (some k) full_access = inr (k, refl, inr refl)
    decide-Touched (some k) read_only_access = inr (k, refl, inr refl)
    decide-Touched (some k) no_access = inr (k, refl, inl refl)

    judge-failure :
        (ip : IpAddr)
        → lockout_key w s r ≡ some ip
        → verified w s (presented w s r) ≡ no_access
        → (judge w s now r m).table ≡ record_event m (now, failure ip)
    unfolding record_event
    judge-failure ip key wrong = rw (key, wrong) refl

    judge-Touched : Touched now (lockout_key w s r) m (judge w s now r m).table
    judge-Touched = decide-Touched (lockout_key w s r) (verified w s (presented w s r))

    -- A locked address does not get past the gate.
    few_at_gate :
        (ip : IpAddr) (n t : ℕ)
        → lockout_key w s r ≡ some ip
        → lookup ip m ≡ some (n, t)
        → t ≤ now
        → now < t + window
        → gate w s now r m ≡ none
        → n < max_failures
    unfolding gate lockout_remaining
    few_at_gate ip n t key found past early =
        if-rule (λ o. o ≡ none → n < max_failures)
          (not (is_health_path r.path) && is_password_mode s && text_eq s.admin_password [])
          (some misconfigured)
          (if is_open w s r
            then some run_next
            else unless_locked w s (remaining w s now (lockout_key w s r) m))
          (λ _ h. cc)
          (λ _.
            if-rule (λ o. o ≡ none → n < max_failures) (is_open w s r) (some run_next)
              (unless_locked w s (remaining w s now (lockout_key w s r) m)) (λ _ h. cc)
              (λ _. rw (key, found) last))
      where
        last : unless_locked w s (remaining_of now (some (n, t))) ≡ none → n < max_failures
        last = elim (Bool-cases (leb max_failures n && ltb (elapsed now t) window)) [
          | inl locked ↦ rw locked (λ h. cc)
          | inr free ↦ λ h. ground arith
        ]

  -- The entry of an address after its own failure within the window.
  failed_entry :
      (now : ℕ) (ip : IpAddr) (n t : ℕ) (m : Table)
      → length m < max_tracked
      → lookup ip m ≡ some (n, t)
      → now < t + window
      → t ≤ now
      → n + 1 < 2 ^ 32
      → lookup ip (record_event m (now, failure ip)) ≡ some (n + 1, t)
  unfolding observe fail
  failed_entry now ip n t m room found early past few =
      let inside : ltb (elapsed now t) window ≡ true = ground arith in
      let small : (n + 1) % 2 ^ 32 ≡ n + 1 = omega arith in
      rw (record_event-lookup ip m (now, failure ip) room, beq_refl ip, found, inside, small) refl

  -- The entry of an address after another's event.
  other_entry :
      (now : ℕ) (ip k : IpAddr) (m : Table)
      → length m < max_tracked
      → (k =? ip) ≡ false
      → (lookup ip (record_event m (now, failure k)) ≡ lookup ip m)
        × (lookup ip (record_event m (now, success k)) ≡ lookup ip m)
  unfolding observe
  other_entry now ip k m room other = (
    rw (record_event-lookup ip m (now, failure k) room, other) refl,
    rw (record_event-lookup ip m (now, success k) room, other) refl,
  )

  Touched-other :
      (now : ℕ) (ip : IpAddr) (key : Option IpAddr) (m m' : Table)
      → length m < max_tracked
      → is_key ip key ≡ false
      → Touched now key m m'
      → (lookup ip m' ≡ lookup ip m) × (length m' ≤ length m + 1)
  Touched-other now ip key m m' room other (inl same) = rw same (refl, omega arith)
  Touched-other now ip none m m' room other (inr (k, key_is, event)) = cc
  Touched-other now ip (some j) m m' room other (inr (k, key_is, inl event)) =
      let j_is : j ≡ k = some_injective key_is in
      let apart : (k =? ip) ≡ false = rw j_is at other in
      rw event ((other_entry now ip k m room apart).0, length-record_event m (now, failure k) room)
  Touched-other now ip (some j) m m' room other (inr (k, key_is, inr event)) =
      let j_is : j ≡ k = some_injective key_is in
      let apart : (k =? ip) ≡ false = rw j_is at other in
      rw event ((other_entry now ip k m room apart).1, length-record_event m (now, success k) room)

  key_is_some : (ip : IpAddr) (key : Option IpAddr) → is_key ip key ≡ true → key ≡ some ip
  key_is_some ip none h = cc
  key_is_some ip (some k) h = ap some ((ip_keys.beq_iff k ip).0 h)

  abbrev Picked : IpAddr → List Request → Option (Request × List Request) → Type 0
  Picked ip rs none = Unit
  Picked ip rs (some (r, rest)) =
      (in_flight ip rs ≡ own ip r + in_flight ip rest) × IsWrong ip r × All (IsWrong ip) rest

  put_back-Picked :
      (ip : IpAddr) (r : Request) (rs : List Request) (o : Option (Request × List Request))
      → IsWrong ip r
      → Picked ip rs o
      → Picked ip (r ∷ rs) (put_back r o)
  unfolding in_flight
  put_back-Picked ip r rs none wrong h = tt
  put_back-Picked ip r rs (some (q, rest)) wrong (count, bad, others) =
      (omega (arith, count), bad, (wrong, others))

  pick-Picked :
      (ip : IpAddr) (n : ℕ) (rs : List Request) → All (IsWrong ip) rs → Picked ip rs (pick n rs)
  unfolding pick in_flight
  pick-Picked ip n [] h = tt
  pick-Picked ip zero (r ∷ rs) (wrong, others) = (refl, wrong, others)
  pick-Picked ip (suc n) (r ∷ rs) (wrong, others) =
      put_back-Picked ip r rs (pick n rs) wrong (pick-Picked ip n rs others)

  step-closed :
      (now : ℕ) (r : Request) (st : Traffic) (d : Decision)
      → gate w s now r st.table ≡ some d
      → step w s st (arrives now r) ≡ st
  unfolding step
  step-closed now r st d h = rw h refl

  step-open :
      (now : ℕ) (r : Request) (st : Traffic)
      → gate w s now r st.table ≡ none
      → step w s st (arrives now r) ≡ record st { pending = r ∷ st.pending }
  unfolding step
  step-open now r st h = rw h refl

  step-ends :
      (now i : ℕ) (st : Traffic) (o : Option (Request × List Request))
      → pick i st.pending ≡ o
      → step w s st (ends now i) ≡ ended w s now st o
  unfolding step
  step-ends now i st o h = rw h refl

  -- Within a window that an address has opened by failing, `n` times so far, the credentials of its
  -- that are looked at, with those failures and the requests in flight, are fewer than the limit of
  -- five and `k` together, whatever the other addresses do and in whatever order the awaited
  -- verifications end; at most `k` requests of the address are in flight at once, none has a valid
  -- credential, and the lockout table does not fill.
  pub guesses-le :
      (k : ℕ) (ip : IpAddr) (t : ℕ) (es : List Moment) (st : Traffic) (n : ℕ)
      → k < 2 ^ 31
      → lookup ip st.table ≡ some (n, t)
      → n + in_flight ip st.pending < max_failures + k
      → All (IsWrong ip) st.pending
      → length st.table + length es ≤ max_tracked
      → IsGuessing k ip t st es
      → guesses ip st es + (n + in_flight ip st.pending) < max_failures + k
  unfolding guesses IsGuessing in_flight
  guesses-le k ip t [] st n small found few wrong room h = omega (arith, few)
  guesses-le k ip t (arrives now r ∷ es) st n small found few wrong room
        ((past, early, bad), most, rest) =
      elim (Option-cases (gate w s now r st.table)) [
        | inr (d, closed) ↦
            let same : step w s st (arrives now r) ≡ st = step-closed now r st d closed in
            let later =
              guesses-le k ip t es st n small found few wrong (omega arith)
                (subst (λ q. IsGuessing k ip t q es) same rest) in
            rw (same, closed) (ground (arith, later))
        | inl passed ↦
            let st' : Traffic = record st { pending = r ∷ st.pending } in
            let same : step w s st (arrives now r) ≡ st' = step-open now r st passed in
            let cap' : own ip r + in_flight ip st.pending ≤ k = rw same at most in
            let later = λ (few' : n + (own ip r + in_flight ip st.pending) < max_failures + k).
              guesses-le k ip t es st' n small found few' (bad, wrong) (omega arith)
                (subst (λ q. IsGuessing k ip t q es) same rest) in
            elim (Bool-cases (is_key ip (lockout_key w s r))) [
              | inr other ↦
                  let known = later (rw other (omega (arith, few))) in
                  let known' = rw other at known in rw (same, other) (omega (arith, known'))
              | inl mine ↦
                  let fewer =
                    few_at_gate now r st.table ip n t (key_is_some ip (lockout_key w s r) mine)
                      found past early passed in
                  let below : 1 + in_flight ip st.pending ≤ k = rw mine at cap' in
                  let known = later (rw mine (omega (arith, fewer, below))) in
                  let known' = rw mine at known in rw (same, mine, passed) (omega (arith, known'))
            ]
      ]
  guesses-le k ip t (ends now i ∷ es) st n small found few wrong room ((past, early), most, rest) =
      elim (Option-cases (pick i st.pending)) [
        | inl nothing ↦
            let same : step w s st (ends now i) ≡ st = step-ends now i st none nothing in
            let later =
              guesses-le k ip t es st n small found few wrong (omega arith)
                (subst (λ q. IsGuessing k ip t q es) same rest) in
            rw same (omega (arith, later))
        | inr ((r, left), taken) ↦
            let m' = (judge w s now r st.table).table in
            let st' : Traffic = record { table = m'; pending = left } in
            let same : step w s st (ends now i) ≡ st' = step-ends now i st (some (r, left)) taken in
            let (count, bad, others) =
              subst (Picked ip st.pending) taken (pick-Picked ip i st.pending wrong) in
            elim (Bool-cases (is_key ip (lockout_key w s r))) [
              | inr other ↦
                  let (kept, longer) =
                    Touched-other now ip (lockout_key w s r) st.table m' (omega arith) other
                      (judge-Touched now r st.table) in
                  let count' : in_flight ip st.pending ≡ in_flight ip left =
                    omega (arith, rw other at count) in
                  let later =
                    guesses-le k ip t es st' n small (kept ∙ found) (omega (arith, few, count'))
                      others (omega (arith, longer, room))
                      (subst (λ q. IsGuessing k ip t q es) same rest) in
                  rw same (omega (arith, later, count'))
              | inl mine ↦
                  let event : m' ≡ record_event st.table (now, failure ip) =
                    judge-failure now r st.table ip (key_is_some ip (lockout_key w s r) mine)
                      (bad mine) in
                  let count' : in_flight ip st.pending ≡ 1 + in_flight ip left = rw mine at count in
                  let spare : length st.table < max_tracked = omega arith in
                  let found' : lookup ip m' ≡ some (n + 1, t) = rw event (
                    failed_entry now ip n t st.table spare found early past
                      (omega (arith, few, small))) in
                  let longer : length m' ≤ length st.table + 1 =
                    rw event (length-record_event st.table (now, failure ip) spare) in
                  let later =
                    guesses-le k ip t es st' (n + 1) small found' (omega (arith, few, count'))
                      others (omega (arith, longer, room))
                      (subst (λ q. IsGuessing k ip t q es) same rest) in
                  rw same (omega (arith, later, count'))
            ]
      ]
