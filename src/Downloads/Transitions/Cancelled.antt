-- ===== src/Downloads/Transitions/Cancelled.antt =====
-- src/db/downloads_lifecycle.rs: a cancel wins over everything that may race it.
use zimi_rs.Base.{
  ℕ, ◌≡◌, refl, sym, subst, ◌∙◌, inl, inr, true, some, List, [], ◌∷◌, ◌==◌, if◌then◌else◌,
  Bool-cases,
}
use zimi_rs.Downloads.Status.{DownloadStatus, cancelled, can_transition_to}
use zimi_rs.Downloads.Table.{Row, Db, Env, find_row}
use zimi_rs.Downloads.Transitions.{Moves, IsStep, Evolved}
use zimi_rs.Downloads.Transitions.Ops.{Op, run}
use zimi_rs.Downloads.Transitions.Steps.{run-Evolved}

-- The operations one after another, each with what it meets.
unfoldable pub run_all : List (Env × Op) → Db → Db
run_all [] db = db
run_all ((env, op) ∷ later) db = run_all later (run env op db)

some_injective : {a b : Row} → some a ≡ some b → a ≡ b
some_injective h = cc

-- A row is found again, one step further.
find_row-Evolved :
    (id : ℕ) (rs rs' : List Row) (r : Row)
    → Evolved rs rs'
    → find_row id rs ≡ some r
    → (r' : Row) × (find_row id rs' ≡ some r') × IsStep r r'
unfolding find_row
find_row-Evolved id [] rs' r h found = cc
find_row-Evolved id (s ∷ rs) [] r h found = absurd h
find_row-Evolved id (s ∷ rs) (s' ∷ rs') r (step, rest) found = elim (Bool-cases (s.id == id)) [
  | inl here ↦
      let first : some s ≡ some r = rw here at found in
      let again : (if s'.id == id then some s' else find_row id rs') ≡ some s' =
        rw (sym step.same_id, here) in
      (s', again, subst (λ x. IsStep x s') (some_injective first) step)
  | inr there ↦
      let later : find_row id rs ≡ some r = rw there at found in
      let (r', found', onward) = find_row-Evolved id rs rs' r rest later in
      let again : (if s'.id == id then some s' else find_row id rs') ≡ some r' =
        rw (sym step.same_id, there) found' in
      (r', again, onward)
]

cancelled-Moves : (s t : DownloadStatus) → s ≡ cancelled → Moves s t → t ≡ cancelled
unfolding can_transition_to
cancelled-Moves s t h (inl same) = sym same ∙ h
cancelled-Moves s t h (inr (inl listed)) =
    let impossible : can_transition_to cancelled t ≡ true = rw h at listed in cc
cancelled-Moves s t h (inr (inr (was, now))) = cc

-- Whatever operations follow, in any order and whatever the database does, a cancelled row is still
-- there, still cancelled, with its name and its URL.
pub run_all-cancelled :
    (ops : List (Env × Op)) (db : Db) (id : ℕ) (r : Row)
    → find_row id db.rows ≡ some r
    → r.status ≡ cancelled
    → (r' : Row) × (find_row id (run_all ops db).rows ≡ some r')
      × (r'.status ≡ cancelled)
      × (r'.name ≡ r.name)
      × (r'.url ≡ r.url)
unfolding run_all
run_all-cancelled [] db id r found h = (r, found, h, refl, refl)
run_all-cancelled ((env, op) ∷ later) db id r found h =
    let (s, found', step) =
      find_row-Evolved id db.rows (run env op db).rows r (run-Evolved env op db) found in
    let (r', found'', still, n, u) =
      run_all-cancelled later (run env op db) id s found'
        (cancelled-Moves r.status s.status h step.moves) in
    (r', found'', still, n ∙ sym step.same_name, u ∙ sym step.same_url)
