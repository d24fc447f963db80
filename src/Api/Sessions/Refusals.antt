-- ===== src/Api/Sessions/Refusals.antt =====
-- `POST /v1/sessions/{id}/resume` (src/api/sessions.rs) with an answer that does not fit the pause.
use monty_server.Common.{
  ℕ, ◌≡◌, refl, ◌∙◌, String, false, none, some, ok, err, arith, nat_key, lookup, ==_iff,
}
use monty_server.Error.{bad_request}
use monty_server.External.{Types, Externals, RunProgress}
use monty_server.Engine.{ResumeInput, is_match, mismatch_message}
use monty_server.Engine.Resuming.{resume_session_mismatch}
use monty_server.Session.{
  SessionEntry, Cell, SessionStore, get, update, acquire_for_resume, restore,
}
use monty_server.Session.Entries.{lookup-update}
use monty_server.Api.{completes, spawn_execution}
use monty_server.Api.Sessions.Requests.{ResumeRequest, into_input}
use monty_server.Api.Sessions.Handlers.{
  Surroundings, acquired_at, begin_resume, finish_resume, settle_resume, acquired_resume, resume,
  spawned,
}

module _ {x : Types} where
  taken : SessionEntry x → SessionEntry x
  taken e = record e { progress = none }

  acquire_taken :
      (e : SessionEntry x) (p : RunProgress x)
      → e.terminal ≡ false
      → e.progress ≡ some p
      → acquire_for_resume e ≡ (ok (p, e.tracker), taken e)
  unfolding acquire_for_resume taken
  acquire_taken e p alive idle = simp (alive, idle)

  update-sessions :
      (ref : ℕ) (f : SessionEntry x → SessionEntry x) (s : SessionStore x)
      → (update ref f s).sessions ≡ s.sessions
  unfolding update
  update-sessions ref f s = ground (arith, lookup ref s.heap)

  acquired-begin_resume :
      (id : ℕ) (caller : String) (s : SessionStore x) (ref : ℕ) (c : Cell x) (p : RunProgress x)
      → get id caller s ≡ some ref
      → lookup ref s.heap ≡ some c
      → c.entry.terminal ≡ false
      → c.entry.progress ≡ some p
      → begin_resume id caller s ≡ (ok (ref, p, c.entry.tracker), update ref (λ _. taken c.entry) s)
  unfolding begin_resume acquired_at
  acquired-begin_resume id caller s ref c p got found alive idle =
      rw (begin_resume, got, found, acquire_taken c.entry p alive idle) refl

  -- Giving the program back after taking it out leaves every cell as it was.
  lookup-restore :
      (s : SessionStore x) (ref : ℕ) (c : Cell x) (p : RunProgress x) (j : ℕ)
      → lookup ref s.heap ≡ some c
      → c.entry.progress ≡ some p
      → lookup j (update ref (restore p) (update ref (λ _. taken c.entry) s)).heap ≡ lookup j s.heap
  unfolding restore taken
  lookup-restore s ref c p j found idle =
      let held : Cell x = record c { entry = taken c.entry } in
      let once = lookup-update ref ref (λ _. taken c.entry) s c found in
      let twice =
        lookup-update ref j (restore p) (update ref (λ _. taken c.entry) s) held
          (ground (arith, once, ==_iff ref ref)) in
      ground (
        arith,
        twice,
        lookup-update ref j (λ _. taken c.entry) s c found,
        found,
        idle,
        ==_iff ref j,
      )

module _ {x : Types} (m : Externals x) where
  -- A resume of a session that its caller gets and that is paused and idle, with a body that reads
  -- as an answer that does not match the pause, returns a bad request that names the mismatch, and
  -- leaves the map of sessions and every cell of the store as they were, if its task is neither
  -- refused nor panics.
  pub resume-mismatch :
      (show : ℕ → String) (at : Surroundings) (caller : String) (id : ℕ) (request : ResumeRequest x)
      (s : SessionStore x) (ref : ℕ) (c : Cell x) (p : RunProgress x) (input : ResumeInput x)
      → into_input m show request ≡ ok input
      → get id caller s ≡ some ref
      → lookup ref s.heap ≡ some c
      → c.entry.terminal ≡ false
      → c.entry.progress ≡ some p
      → at.task_end ≡ completes
      → is_match p input ≡ false
      → (s' : SessionStore x) × (resume m show at caller id request s
          ≡ some (err (bad_request (mismatch_message p input)), s'))
        × (s'.sessions ≡ s.sessions)
        × ((j : ℕ) → lookup j s'.heap ≡ lookup j s.heap)
  unfolding resume acquired_resume settle_resume finish_resume spawned spawn_execution
  resume-mismatch show at caller id request s ref c p input read got found alive idle ends differ =
      (
        update ref (restore p) (update ref (λ _. taken c.entry) s),
        rw
            (
              resume,
              read,
              acquired-begin_resume id caller s ref c p got found alive idle,
              ends,
              resume_session_mismatch m at.fuel at.readings p c.entry.tracker input differ,
            )
            refl,
        update-sessions ref (restore p) (update ref (λ _. taken c.entry) s)
            ∙ update-sessions ref (λ _. taken c.entry) s,
        λ j. lookup-restore s ref c p j found idle,
      )
