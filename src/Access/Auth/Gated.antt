-- ===== src/Access/Auth/Gated.antt =====
-- src/serve/middleware.rs: what a request must present to pass the auth middleware.
use zimi_rs.Base.{
  ℕ, ◌≡◌, ◌≢◌, refl, ◌⊎◌, inl, inr, true, false, not, ◌&&◌, ◌||◌, Option, none, some, [], Text,
  text_eq, arith, Bool-cases, Option-cases,
}
use zimi_rs.Net.Ip.{IpAddr}
use zimi_rs.Access.Lockout.{Table}
use zimi_rs.Access.Auth.{
  Settings, Request, Verifier, is_read_verb, is_health_path, read_only_allowed, is_password_mode,
  auth_required, run_next, forbidden, unauthorized, misconfigured, presented, verified, lockout_key,
  remaining, decide, unless_locked, gate, judge, after_gate, auth_middleware,
}

module _ (w : Verifier) (s : Settings) where
  -- A credential that opens a route: the admin's, or a read-only token within its scope.
  pub record IsCredential (r : Request) (t : Text) : Type 0 where
    pub shown : presented w s r ≡ some t
    pub some_text : text_eq t [] ≡ false
    pub checks :
        (w.verify_bg t ≡ true)
        ⊎ ((w.verify_read_only_bg t ≡ true) × (read_only_allowed r.method r.path ≡ true))

  text_verified :
      (r : Request) (t : Text)
      → presented w s r ≡ some t
      → (now : ℕ) (ip : Option IpAddr) (m : Table)
      → (decide w s now r ip m (verified w s (some t))).decision ≡ run_next
      → IsCredential r t
  text_verified r t shown now ip m h = elim (Bool-cases (text_eq t [])) [
    | inl empty ↦ let h' : unauthorized ≡ run_next = rw empty at h in cc
    | inr full ↦ elim (Bool-cases (w.verify_bg t)) [
      | inl admin ↦ record { shown = shown; some_text = full; checks = inl admin }
      | inr other ↦
          elim (Bool-cases (not (text_eq s.read_only_token []) && w.verify_read_only_bg t)) [
            | inl reads ↦ elim (Bool-cases (read_only_allowed r.method r.path)) [
              | inl scope ↦ record {
                shown = shown;
                some_text = full;
                checks = inr (ground arith, scope);
              }
              | inr outside ↦
                  let h' : forbidden ≡ run_next = rw (full, other, reads, outside) at h in cc
            ]
            | inr none_left ↦
                let h' : unauthorized ≡ run_next = rw (full, other, none_left) at h in cc
          ]
    ]
  ]

  judge_passed :
      (now : ℕ) (r : Request) (m : Table)
      → (judge w s now r m).decision ≡ run_next
      → (t : Text) × IsCredential r t
  judge_passed now r m h = elim (Option-cases (presented w s r)) [
    | inl nothing ↦ let h' : unauthorized ≡ run_next = rw nothing at h in cc
    | inr (t, shown) ↦
        let h' : (decide w s now r (lockout_key w s r) m (verified w s (some t))).decision
            ≡ run_next =
          rw shown at h in
        (t, text_verified r t shown now (lockout_key w s r) m h')
  ]

  gate_locked :
      (now ended : ℕ) (between : Table → Table) (r : Request) (m : Table) (o : Option ℕ)
      → (after_gate w s ended between r m (unless_locked w s o)).decision ≡ run_next
      → (o ≡ none) × ((t : Text) × IsCredential r t)
  gate_locked now ended between r m none h = (refl, judge_passed ended r (between m) h)
  gate_locked now ended between r m (some rem) h = cc

  -- In password mode, outside the health probe, a request that must be authenticated (a write, or a
  -- read where reads are gated) passes only when a password is set, its address was not locked out as
  -- it came, and it presents the admin's credential, or a read-only token for a route in its scope;
  -- whatever other requests do to the lockout table while the credential is verified.
  pub auth_middleware-IsCredential :
      (now ended : ℕ) (between : Table → Table) (r : Request) (m : Table)
      → is_password_mode s ≡ true
      → is_health_path r.path ≡ false
      → (s.require_auth_for_reads || not (is_read_verb r.method)) ≡ true
      → (auth_middleware w s now ended between r m).decision ≡ run_next
      → (s.admin_password ≢ [])
        × (remaining w s now (lockout_key w s r) m ≡ none)
        × ((t : Text) × IsCredential r t)
  unfolding auth_middleware gate auth_required text_eq
  auth_middleware-IsCredential now ended between r m mode health gated h =
      elim (Bool-cases (text_eq s.admin_password [])) [
        | inl unset ↦ let h' : misconfigured ≡ run_next = rw (health, mode, unset) at h in cc
        | inr set ↦
            let (free, credential) =
              gate_locked now ended between r m (remaining w s now (lockout_key w s r) m)
                (rw (health, mode, set, gated) at h) in
            ((λ empty. let clash : true ≡ false = rw empty at set in cc), free, credential)
      ]
