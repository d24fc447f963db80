-- ===== src/Api/Sessions/Isolated.antt =====
-- The handlers of src/api/sessions.rs as whole requests: what they leave of the sessions of others.
use monty_server.Common.{
  ℕ, ◌≡◌, subst, String, none, some, ok, err, arith, nat_key, lookup, map-eq-some, Result-cases,
  inl, inr,
}
use monty_server.Error.{ApiResult}
use monty_server.Config.{LimitBounds, SessionConfig}
use monty_server.Tracker.{Tracker}
use monty_server.External.{Types, Externals, RunProgress}
use monty_server.Engine.{ResumeInput, ResumeResult, resume_session}
use monty_server.Session.{SessionStore}
use monty_server.Session.Isolation.{seen-remove}
use monty_server.Session.Links.{IsLinked, remove-IsLinked}
use monty_server.Api.Sessions.Requests.{
  CreateSessionRequest, ResumeRequest, into_input, resolve_ttl,
}
use monty_server.Api.Dto.{into_spec}
use monty_server.Limits.{resolve}
use monty_server.Api.Sessions.View.{SessionView}
use monty_server.Api.Sessions.Handlers.{
  CreateOutcome, StartOutcome, started, Surroundings, begin_resume, settle_resume, acquired_resume,
  resume, delete, create, spawned, store_started, start_task,
}
use monty_server.Api.Sessions.Spared.{
  Spares, Spares-refl, Spares-trans, IsOwned, Begun, finish_resume-Spares, begin_resume-Begun,
  create-Spares_store,
}

module _ {x : Types} (m : Externals x) where
  pub settle_resume-Spares :
      (caller : String) (at : Surroundings) (id ref : ℕ)
      (result : ApiResult (ResumeResult x × Tracker)) (s : SessionStore x)
      → IsOwned caller ref s
      → Spares caller s (settle_resume m at id ref result s).1
  unfolding settle_resume
  settle_resume-Spares caller at id ref (err e) s own = Spares-refl caller s
  settle_resume-Spares caller at id ref (ok result) s own =
      finish_resume-Spares caller ref at.stored_at result s own

  acquired_resume-Spares :
      (caller : String) (at : Surroundings) (id : ℕ) (input : ResumeInput x) (s : SessionStore x)
      (begun : ApiResult (ℕ × RunProgress x × Tracker) × SessionStore x)
      {answer : ApiResult (SessionView x)} {s' : SessionStore x}
      → Begun caller s begun
      → acquired_resume m at id input begun ≡ some (answer, s')
      → Spares caller s s'
  unfolding acquired_resume
  acquired_resume-Spares caller at id input s (err e, u) {answer} {s'} h got =
      subst (λ o. elim o as (λ _. Type 0) [ none ↦ Unit | some (a, v) ↦ Spares caller s v ]) got h
  acquired_resume-Spares caller at id input s (ok (ref, p, t), u) {answer} {s'} h got =
      let (r, _, same) =
        map-eq-some (λ r. settle_resume m at id ref r u)
          (spawned at.task_end (resume_session m at.fuel at.readings p t input)) (answer, s') got in
      subst (λ (q : ApiResult (SessionView x) × SessionStore x). Spares caller s q.1) same
        (Spares-trans h.0 (settle_resume-Spares caller at id ref r u h.1))

  pub resume-Spares :
      (show : ℕ → String) (at : Surroundings) (caller : String) (id : ℕ) (request : ResumeRequest x)
      (s : SessionStore x) {answer : ApiResult (SessionView x)} {s' : SessionStore x}
      → resume m show at caller id request s ≡ some (answer, s')
      → Spares caller s s'
  unfolding resume
  resume-Spares show at caller id request s {answer} {s'} got =
      elim (Result-cases (into_input m show request)) [
        | inl (input, read) ↦
            acquired_resume-Spares caller at id input s (begin_resume id caller s) {answer = answer}
              (begin_resume-Begun caller id s) (ground (arith, got, read))
        | inr (e, bad) ↦
            subst (λ (v : SessionStore x). Spares caller s v) (ground (arith, got, bad))
              (Spares-refl caller s)
      ]

  pub delete-Spares :
      (caller : String) (id : ℕ) (s : SessionStore x) → Spares caller s (delete m caller id s).1
  unfolding delete
  delete-Spares caller id s = record {
    hidden = λ principal other. seen-remove caller principal id s other;
    linked = remove-IsLinked id caller s;
  }

  pub store_started-Spares :
      (show : ℕ → String) (at : Surroundings) (ttl : ℕ) (caller : String)
      (result : ApiResult (StartOutcome x)) (s : SessionStore x)
      → IsLinked s
      → lookup at.fresh_id s.sessions ≡ none
      → Spares caller s (store_started m show at ttl caller result s).1
  unfolding store_started
  store_started-Spares show at ttl caller (err e) s h unused = Spares-refl caller s
  store_started-Spares show at ttl caller (ok (StartOutcome.compile_failed e)) s h unused =
      Spares-refl caller s
  store_started-Spares show at ttl caller (ok (started t step)) s h unused =
      create-Spares_store caller ttl t step at.fresh_id at.stored_at s h unused

  pub create-Spares :
      (show : ℕ → String) (bounds : LimitBounds) (config : SessionConfig) (at : Surroundings)
      (caller : String) (request : CreateSessionRequest x) (s : SessionStore x)
      {answer : ApiResult (CreateOutcome x)} {s' : SessionStore x}
      → IsLinked s
      → lookup at.fresh_id s.sessions ≡ none
      → create m show bounds config at caller request s ≡ some (answer, s')
      → Spares caller s s'
  unfolding create
  create-Spares show bounds config at caller request s {answer} {s'} h unused got =
      elim (Result-cases (into_spec m request.source)) [
        | inl (spec, read) ↦
            (let (r, _, same) =
                map-eq-some
                  (λ r. store_started m show at (resolve_ttl request.ttl_seconds config) caller r s)
                  (spawned at.task_end
                    (start_task m at (resolve request.source.limits bounds) spec))
                  (answer, s') (ground (arith, got, read)) in
              subst (λ (q : ApiResult (CreateOutcome x) × SessionStore x). Spares caller s q.1) same
                (store_started-Spares show at (resolve_ttl request.ttl_seconds config) caller r s h
                  unused))
        | inr (e, bad) ↦
            subst (λ (v : SessionStore x). Spares caller s v) (ground (arith, got, bad))
              (Spares-refl caller s)
      ]
