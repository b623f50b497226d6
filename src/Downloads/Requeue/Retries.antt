-- ===== src/Downloads/Requeue/Retries.antt =====
-- src/torrent/poller/requeue.rs: how often a row that keeps failing is retried.
use zimi_rs.Base.{
  ℕ, ◌+◌, ◌≤◌, ◌<◌, ◌≡◌, refl, sym, subst, inl, inr, Bool, true, false, none, some, List, [], ◌∷◌,
  ◌==◌, leb, ==_iff, min, length, if◌then◌else◌, wrap32, Text, text_eq, text_eq_iff, lookup, insert,
  nat_keys, lookup-insert, arith, Bool-cases, beq_refl,
}
use zimi_rs.Downloads.Requeue.{
  GuardEntry, Guard, max_last_error_tracked, guard_stale_after_passes, is_auth_error,
  should_give_up, RequeueDecision, requeue, give_up, next_count, requeue_guard_step,
}
use zimi_rs.Downloads.Requeue.Bounded.{requeue_guard_step-keeps}

-- A row that the guard is asked about: its id, its error and the pass.
abbrev pub Seen : Type 0
Seen = ℕ × Text × ℕ

abbrev pub count_requeue : RequeueDecision → ℕ
count_requeue requeue = 1
count_requeue give_up = 0

module _ (is_alphanumeric : ℕ → Bool) (id : ℕ) where
  -- How often the row `id` is re-queued over a history of all rows.
  unfoldable pub retries : Guard → List Seen → ℕ
  retries g [] = 0
  retries g ((i, msg, pass) ∷ es) =
      let (g', decision) = requeue_guard_step is_alphanumeric g i msg pass in
      (if i == id then count_requeue decision else 0) + retries g' es

  -- The row `id` fails each time with the same error, which is no failed login, and at least once
  -- in a hundred passes.
  abbrev pub IsPersistent : Text → ℕ → List Seen → Type 0
  IsPersistent msg last [] = Unit
  IsPersistent msg last ((i, m, pass) ∷ es) =
      (pass ≤ last + guard_stale_after_passes)
      × ((i == id) ≡ true → (m ≡ msg) × (is_auth_error is_alphanumeric m ≡ false))
      × IsPersistent msg (if i == id then pass else last) es

  abbrev onward : GuardEntry → Text → ℕ → GuardEntry
  onward e msg pass =
      if leb 2 e.count
      then record e { last_seen = pass }
      else record { prev_msg = msg; count = wrap32 (e.count + 1); last_seen = pass }

  next_count_same :
      (e : GuardEntry) (msg : Text)
      → text_eq e.prev_msg msg ≡ true
      → next_count (some e) msg ≡ wrap32 (e.count + 1)
  unfolding next_count
  next_count_same e msg equal = rw equal refl

  -- The step of the row itself, once it has failed with this error.
  own_step :
      (g : Guard) (e : GuardEntry) (msg : Text) (pass : ℕ)
      → lookup id g ≡ some e
      → e.prev_msg ≡ msg
      → is_auth_error is_alphanumeric msg ≡ false
      → requeue_guard_step is_alphanumeric g id msg pass
        ≡ (insert id (onward e msg pass) g, if leb 2 e.count then give_up else requeue)
  unfolding requeue_guard_step should_give_up
  own_step g e msg pass found same honest =
      let equal : text_eq e.prev_msg msg ≡ true = (text_eq_iff e.prev_msg msg).1 same in
      elim (Bool-cases (leb 2 e.count)) [
        | inl enough ↦ rw (found, honest, equal, enough) refl
        | inr fewer ↦ rw (found, honest, equal, fewer, next_count_same e msg equal) refl
      ]

  onward_msg :
      (e : GuardEntry) (msg : Text) (pass : ℕ)
      → e.prev_msg ≡ msg
      → (onward e msg pass).prev_msg ≡ msg
  onward_msg e msg pass same = elim (Bool-cases (leb 2 e.count)) [
    | inl enough ↦ rw enough same
    | inr fewer ↦ rw fewer refl
  ]

  onward_seen : (e : GuardEntry) (msg : Text) (pass : ℕ) → (onward e msg pass).last_seen ≡ pass
  onward_seen e msg pass = ground arith

  onward_count :
      (e : GuardEntry) (msg : Text) (pass : ℕ)
      → count_requeue (if leb 2 e.count then give_up else requeue) + min 2 e.count
        ≤ min 2 (onward e msg pass).count
  onward_count e msg pass = ground arith

  -- Each retry raises the count, up to the two that are granted.
  pub retries_left :
      (msg : Text) (es : List Seen) (g : Guard) (e : GuardEntry)
      → lookup id g ≡ some e
      → e.prev_msg ≡ msg
      → IsPersistent msg e.last_seen es
      → retries g es + min 2 e.count ≤ 2
  unfolding retries
  retries_left msg [] g e found same h = omega arith
  retries_left msg ((i, m, pass) ∷ es) g e found same (fresh, own, rest) =
      elim (Bool-cases (i == id)) [
        | inl mine ↦
            let (m_is, honest) = own mine in
            let i_is : i ≡ id = (==_iff i id).0 mine in
            let plain : is_auth_error is_alphanumeric msg ≡ false = rw m_is at honest in
            let there : lookup id (insert id (onward e msg pass) g) ≡ some (onward e msg pass) =
              rw (lookup-insert id id (onward e msg pass) g, beq_refl id) refl in
            let rest' : IsPersistent msg pass es = rw mine at rest in
            let rest'' : IsPersistent msg (onward e msg pass).last_seen es =
              subst (λ t. IsPersistent msg t es) (sym (onward_seen e msg pass)) rest' in
            let later =
              retries_left msg es _ (onward e msg pass) there (onward_msg e msg pass same) rest'' in
            let granted = onward_count e msg pass in
            rw (mine, i_is, m_is, own_step g e msg pass found same plain) (omega arith)
        | inr other ↦
            let found' =
              requeue_guard_step-keeps is_alphanumeric g i id m pass e other found fresh in
            let rest' : IsPersistent msg e.last_seen es = rw other at rest in
            let later = retries_left msg es _ e found' same rest' in rw other (omega (arith, later))
      ]

  first_step :
      (g : Guard) (msg : Text) (pass : ℕ)
      → lookup id g ≡ none
      → length g < max_last_error_tracked
      → is_auth_error is_alphanumeric msg ≡ false
      → requeue_guard_step is_alphanumeric g id msg pass
        ≡ (insert id (record { prev_msg = msg; count = 1; last_seen = pass }) g, requeue)
  unfolding requeue_guard_step should_give_up next_count
  first_step g msg pass absent room honest =
      let spare : leb max_last_error_tracked (length g) ≡ false = ground arith in
      rw (absent, honest, spare) refl

  -- A row that the guard does not know, and that its map has room for, is re-queued at most twice
  -- while it keeps failing with the same error, whatever the other rows do.
  pub retries_bounded :
      (g : Guard) (msg : Text) (pass : ℕ) (es : List Seen)
      → lookup id g ≡ none
      → length g < max_last_error_tracked
      → is_auth_error is_alphanumeric msg ≡ false
      → IsPersistent msg pass es
      → retries g ((id, msg, pass) ∷ es) ≤ 2
  unfolding retries
  retries_bounded g msg pass es absent room honest persistent =
      let entry : GuardEntry = record { prev_msg = msg; count = 1; last_seen = pass } in
      let there : lookup id (insert id entry g) ≡ some entry =
        rw (lookup-insert id id entry g, beq_refl id) refl in
      let later = retries_left msg es _ entry there refl persistent in
      rw (beq_refl id, first_step g msg pass absent room honest) (omega arith)
