-- ===== src/Downloads/Status.antt =====
-- src/db/downloads_lifecycle.rs: the states of a download and the table of their transitions.
use zimi_rs.Base.{
  Bool, true, false, Option, some, List, [], ◌∷◌, ℕ, ◌==◌, ==_iff, ◌≡◌, refl, sym, ap, ◌∙◌, any,
  find, if◌then◌else◌, Text, codes, text_eq,
}

pub data DownloadStatus : Type 0 where
  queued downloading complete seeding error cancelled : DownloadStatus

abbrev pub all_statuses : List DownloadStatus
all_statuses = queued ∷ downloading ∷ complete ∷ seeding ∷ error ∷ cancelled ∷ []

pub as_str : DownloadStatus → Text
as_str queued = codes "queued"
as_str downloading = codes "downloading"
as_str complete = codes "complete"
as_str seeding = codes "seeding"
as_str error = codes "error"
as_str cancelled = codes "cancelled"

pub parse_status : Text → Option DownloadStatus
parse_status s = find (λ st. text_eq (as_str st) s) all_statuses

-- The comparison of the derived `PartialEq`.
abbrev rank : DownloadStatus → ℕ
rank queued = 0
rank downloading = 1
rank complete = 2
rank seeding = 3
rank error = 4
rank cancelled = 5

abbrev of_rank : ℕ → DownloadStatus
of_rank n =
    if n == 0
    then queued
    else if n == 1
    then downloading
    else if n == 2
    then complete
    else if n == 3
    then seeding
    else if n == 4
    then error
    else cancelled

of_rank-rank : (st : DownloadStatus) → of_rank (rank st) ≡ st
of_rank-rank queued = refl
of_rank-rank downloading = refl
of_rank-rank complete = refl
of_rank-rank seeding = refl
of_rank-rank error = refl
of_rank-rank cancelled = refl

abbrev pub same_status : DownloadStatus → DownloadStatus → Bool
same_status a b = rank a == rank b

pub same_status_eq : (a b : DownloadStatus) → same_status a b ≡ true → a ≡ b
same_status_eq a b h =
    sym (of_rank-rank a) ∙ ap of_rank ((==_iff (rank a) (rank b)).0 h) ∙ of_rank-rank b

-- Membership in a guard's list of statuses.
abbrev pub is_in : List DownloadStatus → DownloadStatus → Bool
is_in guard st = any (λ g. same_status g st) guard

unfoldable pub can_transition_to : DownloadStatus → DownloadStatus → Bool
can_transition_to queued target = is_in (downloading ∷ error ∷ cancelled ∷ []) target
can_transition_to downloading target =
    is_in (complete ∷ seeding ∷ error ∷ cancelled ∷ queued ∷ []) target
can_transition_to error target = is_in (queued ∷ []) target
can_transition_to seeding target = is_in (complete ∷ []) target
can_transition_to complete target = false
can_transition_to cancelled target = false

-- The text of every status is read back as that status, so the column loses nothing.
pub parse_status-as_str : (st : DownloadStatus) → parse_status (as_str st) ≡ some st
unfolding parse_status as_str text_eq
parse_status-as_str queued = refl
parse_status-as_str downloading = refl
parse_status-as_str complete = refl
parse_status-as_str seeding = refl
parse_status-as_str error = refl
parse_status-as_str cancelled = refl
