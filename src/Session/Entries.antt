-- ===== src/Session/Entries.antt =====
-- The fields of a `SessionEntry` (src/session.rs) and how its operations change them together.
use monty_server.Common.{
  ℕ, ◌==◌, ◌≡◌, Bool, true, false, not, none, some, ok, arith, nat_key, lookup, lookup-insert,
  String,
}
use monty_server.Tracker.{Tracker}
use monty_server.External.{Types, RunProgress}
use monty_server.Engine.{SessionStep, complete, failed, paused}
use monty_server.Session.{
  StepSnapshot, SessionEntry, Cell, SessionStore, split_step, new_entry, acquire_for_resume,
  restore, store_step, update,
}

module _ {x : Types} where
  -- A paused program waits for its answer.
  abbrev pub is_paused : StepSnapshot x → Bool
  is_paused (StepSnapshot.paused _ _) = true
  is_paused _ = false

  -- An entry is finished, and then has no program left, or shows a pause.
  pub record IsConsistent (e : SessionEntry x) : Type 0 where
    pub shown : is_paused e.snapshot ≡ not e.terminal
    pub over : e.terminal ≡ true → e.progress ≡ none

  -- A resume is in flight.
  pub record IsBusy (e : SessionEntry x) : Type 0 where
    pub alive : e.terminal ≡ false
    pub taken : e.progress ≡ none

  pub new_entry-IsConsistent :
      (principal : String) (ttl : ℕ) (t : Tracker) (step : SessionStep x) (now : ℕ)
      → IsConsistent (new_entry principal ttl t step now)
  unfolding new_entry split_step
  new_entry-IsConsistent principal ttl t (complete r o s) now = ground arith
  new_entry-IsConsistent principal ttl t (failed e b o s) now = ground arith
  new_entry-IsConsistent principal ttl t (paused p o s) now = ground arith

  pub store_step-IsConsistent :
      (step : SessionStep x) (t : Tracker) (now : ℕ) (e : SessionEntry x)
      → IsConsistent (store_step step t now e)
  unfolding store_step split_step
  store_step-IsConsistent (complete r o s) t now e = ground arith
  store_step-IsConsistent (failed f b o s) t now e = ground arith
  store_step-IsConsistent (paused p o s) t now e = ground arith

  pub restore-IsConsistent :
      (p : RunProgress x) (e : SessionEntry x)
      → IsBusy e
      → IsConsistent e
      → IsConsistent (restore p e)
  unfolding restore
  restore-IsConsistent p e b h = ground (arith, b.alive, h.shown)

  -- `acquire_for_resume` succeeds on a paused idle entry only, hands out its program and makes it
  -- busy.
  pub acquire_for_resume-eq-ok :
      (e : SessionEntry x) {p : RunProgress x} {t : Tracker} {e' : SessionEntry x}
      → acquire_for_resume e ≡ (ok (p, t), e')
      → (e.terminal ≡ false) × (e.progress ≡ some p) × IsBusy e' × (e'.snapshot ≡ e.snapshot)
  unfolding acquire_for_resume
  acquire_for_resume-eq-ok e h = ground (arith, e.terminal, e.progress)

  pub acquire_for_resume-IsConsistent :
      (e : SessionEntry x) → IsConsistent e → IsConsistent (acquire_for_resume e).1
  unfolding acquire_for_resume
  acquire_for_resume-IsConsistent e h = ground (arith, e.terminal, e.progress, h.shown, h.over)

  pub lookup-update :
      (ref j : ℕ) (f : SessionEntry x → SessionEntry x) (s : SessionStore x) (c : Cell x)
      → lookup ref s.heap ≡ some c
      → lookup j (update ref f s).heap ≡ (elim (ref == j) [
        | true ↦ some (record c { entry = f c.entry })
        | false ↦ lookup j s.heap
      ])
  unfolding update
  lookup-update ref j f s c h =
      ground (arith, h, lookup-insert ref j (record c { entry = f c.entry }) s.heap)
