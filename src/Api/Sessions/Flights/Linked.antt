-- ===== src/Api/Sessions/Flights/Linked.antt =====
-- The map and its references (src/session.rs) stay in order while requests interleave.
use monty_server.Common.{ℕ, sym, subst, inl, inr, String, nat_key, lookup, Bool-cases}
use monty_server.Tracker.{Tracker}
use monty_server.External.{Types}
use monty_server.Engine.{SessionStep, ResumeResult, stepped, mismatch}
use monty_server.Session.{SessionEntry, Cell, SessionStore, update, reap_expired}
use monty_server.Session as Store
use monty_server.Session.Owners.{created}
use monty_server.Session.Links.{
  IsLinked, insert_entry-IsLinked, update-IsLinked, remove-IsLinked, reap_expired-IsLinked,
}
use monty_server.Api.Sessions.Handlers.{finish_resume}
use monty_server.Api.Sessions.Spared.{Begun, begin_resume-Begun}
use monty_server.Api.Sessions.Flights as Flights
use monty_server.Api.Sessions.Flights.{
  System, Step, Steps, creates, deletes, reaps, begins, finishes, abandons, empty_system,
}

module _ {x : Types} where
  create-IsLinked :
      (q : String) (ttl : ℕ) (t : Tracker) (step : SessionStep x) (id now : ℕ) (s : SessionStore x)
      → IsLinked s
      → IsLinked (Store.create q ttl t step id now s).1
  unfolding Store.create
  create-IsLinked q ttl t step id now s h = elim (Bool-cases (Store.has_room s)) [
    | inl room ↦
        subst IsLinked (sym (created q ttl t step id now s room))
          (insert_entry-IsLinked id (Store.new_entry q ttl t step now) s h)
    | inr full ↦ rw (Store.create, full) h
  ]

  finish_resume-IsLinked :
      (ref now : ℕ) (result : ResumeResult x × Tracker) (s : SessionStore x)
      → IsLinked s
      → IsLinked (finish_resume ref now result s).1
  unfolding finish_resume
  finish_resume-IsLinked ref now (stepped step, t) s h = update-IsLinked ref _ s h
  finish_resume-IsLinked ref now (mismatch progress e, t) s h = update-IsLinked ref _ s h

  -- Of a state of the system, its store.
  StoreIsLinked : System x → Type 0
  StoreIsLinked s = IsLinked s.store

  Step-IsLinked : {s s' : System x} → Step s s' → IsLinked s.store → IsLinked s'.store
  unfolding StoreIsLinked
  Step-IsLinked {s} (creates q ttl t step id now e) h =
      subst StoreIsLinked (sym e) (create-IsLinked q ttl t step id now s.store h)
  Step-IsLinked {s} (deletes id q e) h =
      subst StoreIsLinked (sym e) (remove-IsLinked id q s.store h)
  Step-IsLinked {s} (reaps now e) h =
      subst StoreIsLinked (sym e) (reap_expired-IsLinked now s.store h)
  Step-IsLinked {s} (begins id q ref progress t e f) h =
      (subst (Begun q s.store) e (begin_resume-Begun q id s.store)).0.linked h
  Step-IsLinked {s} (finishes ref now result n e) h =
      subst StoreIsLinked (sym e) (finish_resume-IsLinked ref now result s.store h)
  Step-IsLinked {s} (abandons ref n e) h = subst StoreIsLinked (sym e) h

  pub Steps-IsLinked :
      (max_sessions : ℕ) {s : System x} → Steps (empty_system max_sessions) s → IsLinked s.store
  unfolding Store.new lookup
  Steps-IsLinked max_sessions Flights.stays = record { distinct = tt; older = λ id ref found. cc }
  Steps-IsLinked max_sessions (Flights.follows before step) =
      Step-IsLinked step (Steps-IsLinked max_sessions before)
