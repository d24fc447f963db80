-- ===== src/Api/Sessions/Flights.antt =====
-- Requests on sessions that interleave (src/api/sessions.rs, src/session.rs): the resumes in flight,
-- and the steps that other requests take between the two halves of a resume.
pub mod Acquired
pub mod Sound
pub mod Single
pub mod Abandoned
pub mod Linked
pub mod Apart
pub mod Owned
use monty_server.Common.{
  ℕ, zero, suc, ◌+◌, ◌≤◌, ◌<◌, ◌≡◌, refl, Bool, true, false, Option, none, some, List, [], ◌∷◌,
  Result, ok, err, arith, nat_key, lookup, insert, erase, lookup-insert_self, lookup-insert_ne,
  String, ◌==◌, ==_iff, ◌≢◌, if◌then◌else◌, Bool-cases, Option-cases, inl, inr, subst, sym, ap, ◌∙◌,
}
use monty_server.Error.{session_busy}
use monty_server.Tracker.{Tracker}
use monty_server.External.{Types, RunProgress}
use monty_server.Engine.{SessionStep, ResumeResult, stepped, mismatch}
use monty_server.Session as Store
use monty_server.Session.{
  SessionStore, SessionEntry, Cell, AcquireError, CreateError, at_capacity, create, remove,
  reap_expired, update, get, acquire_for_resume, restore, store_step, insert_entry, new_entry,
  has_room,
}
use monty_server.Session.Entries.{
  IsConsistent, IsBusy, new_entry-IsConsistent, store_step-IsConsistent, restore-IsConsistent,
  acquire_for_resume-eq-ok, acquire_for_resume-IsConsistent, lookup-update,
}
use monty_server.Api.Sessions.Handlers.{begin_resume, finish_resume, acquired_at, entry_at}

-- The store, and the references whose resume is in flight.
pub record System (x : Types) : Type 0 where
  pub store : SessionStore x
  pub flights : List ℕ

unfoldable pub count : ℕ → List ℕ → ℕ
count ref [] = 0
count ref (r ∷ rs) = (elim (r == ref) [ true ↦ 1 | false ↦ 0 ]) + count ref rs

unfoldable pub land : ℕ → List ℕ → List ℕ
land ref [] = []
land ref (r ∷ rs) = let rest = land ref rs in elim (r == ref) [ true ↦ rs | false ↦ r ∷ rest ]

module _ {x : Types} where
  -- One atomic step. A task may end with any result; when it ends with an error, or its request is
  -- dropped, nothing is stored.
  pub data Step (s s' : System x) : Type 0 where
    creates :
        (principal : String) (ttl : ℕ) (t : Tracker) (step : SessionStep x) (id now : ℕ)
        → s' ≡ record s { store = (create principal ttl t step id now s.store).1 }
        → Step s s'
    deletes :
        (id : ℕ) (principal : String)
        → s' ≡ record s { store = (remove id principal s.store).1 }
        → Step s s'
    reaps : (now : ℕ) → s' ≡ record s { store = (reap_expired now s.store).1 } → Step s s'
    begins :
        (id : ℕ) (principal : String) (ref : ℕ) (progress : RunProgress x) (t : Tracker)
        → begin_resume id principal s.store ≡ (ok (ref, progress, t), s'.store)
        → s'.flights ≡ ref ∷ s.flights
        → Step s s'
    finishes :
        (ref now : ℕ) (result : ResumeResult x × Tracker)
        → 1 ≤ count ref s.flights
        → s' ≡ record {
          store = (finish_resume ref now result s.store).1;
          flights = land ref s.flights;
        }
        → Step s s'
    abandons :
        (ref : ℕ)
        → 1 ≤ count ref s.flights
        → s' ≡ record s { flights = land ref s.flights }
        → Step s s'

  pub data Steps (s : System x) : System x → Type 0 where
    stays : Steps s s
    follows : {u s' : System x} → Steps s u → Step u s' → Steps s s'

  abbrev pub empty_system : ℕ → System x
  empty_system max_sessions = record { store = Store.new max_sessions; flights = [] }
