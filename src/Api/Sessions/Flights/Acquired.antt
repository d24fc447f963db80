-- ===== src/Api/Sessions/Flights/Acquired.antt =====
-- What one step does to the flights, and the start of `resume` (src/api/sessions.rs) to the entry.
use monty_server.Common.{
  ℕ, ◌+◌, ◌≤◌, ◌≡◌, true, false, some, List, [], ◌∷◌, Result, ok, err, arith, nat_key, lookup,
  insert, String, ◌==◌, ==_iff, ◌≢◌, Option-cases, inl, inr, subst, sym, ap, ◌∙◌,
}
use monty_server.Tracker.{Tracker}
use monty_server.External.{Types, RunProgress}
use monty_server.Session.{
  SessionStore, SessionEntry, Cell, AcquireError, update, get, acquire_for_resume,
}
use monty_server.Api.Sessions.Handlers.{begin_resume, acquired_at}
use monty_server.Api.Sessions.Flights.{count, land}

pub count-land :
    (ref j : ℕ) (rs : List ℕ)
    → 1 ≤ count ref rs
    → (elim (ref == j) [ true ↦ 1 | false ↦ 0 ]) + count j (land ref rs) ≡ count j rs
unfolding count land
count-land ref j [] h = ground arith
count-land ref j (r ∷ rs) h = ground (arith, count-land ref j rs)

pub land_self :
    (ref : ℕ) (rs : List ℕ) → 1 ≤ count ref rs → 1 + count ref (land ref rs) ≡ count ref rs
land_self ref rs h = ground (arith, count-land ref ref rs h, ==_iff ref ref)

pub land_other :
    (ref : ℕ) (rs : List ℕ)
    → 1 ≤ count ref rs
    → (j : ℕ) → ref ≢ j
    → count j (land ref rs) ≡ count j rs
land_other ref rs h j ne = ground (arith, count-land ref j rs h, ==_iff ref j, ne)

module _ {x : Types} where
  pub acquired_at-eq-ok :
      (ref : ℕ) (s s' : SessionStore x)
      (a : Result (RunProgress x × Tracker) AcquireError × SessionEntry x) {r : ℕ}
      {p : RunProgress x} {t : Tracker}
      → acquired_at ref s a ≡ (ok (r, p, t), s')
      → (ref ≡ r) × (a.0 ≡ ok (p, t)) × (s' ≡ update ref (λ _. a.1) s)
  unfolding acquired_at
  acquired_at-eq-ok ref s s' (ok (p, t), e) h = (cc, cc, sym (ap (λ q. q.1) h))
  acquired_at-eq-ok ref s s' (err f, e) h = cc

  pub begin_resume_found :
      (id : ℕ) (principal : String) (s : SessionStore x) (ref : ℕ) (c : Cell x)
      → get id principal s ≡ some ref
      → lookup ref s.heap ≡ some c
      → begin_resume id principal s ≡ acquired_at ref s (acquire_for_resume c.entry)
  unfolding begin_resume
  begin_resume_found id principal s ref c e found = rw (begin_resume, e, found)

  -- What `begin_resume` did when it succeeded.
  pub begin_resume-eq-ok :
      (id : ℕ) (principal : String) (s s' : SessionStore x) {ref : ℕ} {p : RunProgress x}
      {t : Tracker}
      → begin_resume id principal s ≡ (ok (ref, p, t), s')
      → (c : Cell x) × (lookup ref s.heap ≡ some c)
        × ((acquire_for_resume c.entry).0 ≡ ok (p, t))
        × (s' ≡ update ref (λ _. (acquire_for_resume c.entry).1) s)
  unfolding begin_resume
  begin_resume-eq-ok id principal s s' {ref} h = elim (Option-cases (get id principal s)) [
    | inl none_e ↦ ground (arith, none_e)
    | inr (ref', e) ↦ elim (Option-cases (lookup ref' s.heap)) [
      | inl none_c ↦ ground (arith, none_c, e)
      | inr (c, found) ↦
          let (same, a, u) =
            acquired_at-eq-ok ref' s s' (acquire_for_resume c.entry) {r = ref}
              (sym (begin_resume_found id principal s ref' c e found) ∙ h) in
          (
            c,
            subst (λ r. lookup r s.heap ≡ some c) same found,
            a,
            subst (λ r. s' ≡ update r (λ _. (acquire_for_resume c.entry).1) s) same u,
          )
    ]
  ]

  pub update-heap :
      (ref : ℕ) (f : SessionEntry x → SessionEntry x) (s : SessionStore x) (c : Cell x)
      → lookup ref s.heap ≡ some c
      → update ref f s ≡ record s { heap = insert ref (record c { entry = f c.entry }) s.heap }
  unfolding update
  update-heap ref f s c found = rw (update, found)
