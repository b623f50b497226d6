-- ===== src/Access/Auth/Traffic.antt =====
-- src/serve/middleware.rs: requests that go through the auth middleware at once. The awaited
-- verification parts a request in two, and others may come and end in between.
use zimi_rs.Base.{ℕ, zero, suc, Option, none, some, List, [], ◌∷◌}
use zimi_rs.Access.Lockout.{Table}
use zimi_rs.Access.Auth.{Settings, Request, Verifier, Decision, gate, judge}

-- The lockout table, and the requests whose credential is being verified.
pub record Traffic : Type 0 where
  pub table : Table
  pub pending : List Request

-- A request comes, or the verification of a pending one ends, by its place.
pub data Moment : Type 0 where
  arrives : ℕ → Request → Moment
  ends : ℕ → ℕ → Moment

abbrev pub put_back : Request → Option (Request × List Request) → Option (Request × List Request)
put_back r none = none
put_back r (some (q, rest)) = some (q, r ∷ rest)

unfoldable pub pick : ℕ → List Request → Option (Request × List Request)
pick n [] = none
pick zero (r ∷ rs) = some (r, rs)
pick (suc n) (r ∷ rs) = put_back r (pick n rs)

module _ (w : Verifier) (s : Settings) where
  abbrev pub arrived : Request → Traffic → Option Decision → Traffic
  arrived r st (some d) = st
  arrived r st none = record st { pending = r ∷ st.pending }

  abbrev pub ended : ℕ → Traffic → Option (Request × List Request) → Traffic
  ended now st none = st
  ended now st (some (r, rest)) = record {
    table = (judge w s now r st.table).table;
    pending = rest;
  }

  unfoldable pub step : Traffic → Moment → Traffic
  unfolding gate pick
  step st (arrives now r) = arrived r st (gate w s now r st.table)
  step st (ends now i) = ended now st (pick i st.pending)
