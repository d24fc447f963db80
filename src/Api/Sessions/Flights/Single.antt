-- ===== src/Api/Sessions/Flights/Single.antt =====
-- The number of resumes in flight on a session (`resume` in src/api/sessions.rs).
use monty_server.Common.{
  ℕ, ◌≤◌, ◌≡◌, refl, Bool, true, false, Option, none, some, ◌∷◌, Result, ok, err, arith, nat_key,
  lookup, erase, String, ==_iff, if◌then◌else◌, subst, sym, ap,
}
use monty_server.Tracker.{Tracker}
use monty_server.External.{Types, RunProgress}
use monty_server.Engine.{SessionStep, ResumeResult, stepped, mismatch}
use monty_server.Session as Store
use monty_server.Session.{
  SessionStore, SessionEntry, Cell, AcquireError, CreateError, at_capacity, create, remove,
  reap_expired, update, get, acquire_for_resume, restore, store_step, insert_entry, new_entry,
  has_room,
}
use monty_server.Session.Entries.{
  IsConsistent, IsBusy, new_entry-IsConsistent, store_step-IsConsistent, restore-IsConsistent,
  acquire_for_resume-eq-ok, acquire_for_resume-IsConsistent,
}
use monty_server.Api.Sessions.Handlers.{begin_resume, finish_resume}
use monty_server.Api.Sessions.Flights.{
  System, count, land, Step, creates, deletes, reaps, begins, finishes, abandons, Steps, stays,
  follows, empty_system,
}
use monty_server.Api.Sessions.Flights.Acquired.{
  count-land, land_self, land_other, begin_resume-eq-ok,
}
use monty_server.Api.Sessions.Flights.Sound.{
  IsFlown, IsSoundAt, IsSound, insert-IsSoundAt, idle-none_flies, flies-IsBusy, update-IsSound,
}

module _ {x : Types} where
  creates-IsSound :
      (principal : String) (ttl : ℕ) (t : Tracker) (step : SessionStep x) (id now : ℕ)
      (s : System x)
      → IsSound s
      → IsSound (record s { store = (create principal ttl t step id now s.store).1 })
  unfolding create insert_entry
  creates-IsSound principal ttl t step id now s h =
      elim (has_room s.store)
        as (λ b. IsSound (record s {
          store =
              (if◌then◌else◌ {A = Result ℕ CreateError × SessionStore x} b
                (ok id, insert_entry id (new_entry principal ttl t step now) s.store)
                (err (at_capacity s.store.max_sessions), s.store)).1;
        })) [
          | true ↦ insert-IsSoundAt _ h (new_entry-IsConsistent principal ttl t step now)
          | false ↦ h
        ]

  deletes-IsSound :
      (id : ℕ) (principal : String) (s : System x)
      → IsSound s
      → IsSound (record s { store = (remove id principal s.store).1 })
  unfolding remove
  deletes-IsSound id principal s h =
      elim (get id principal s.store)
        as (λ o. IsSound (record s {
          store =
              (elim o as (λ _. Bool × SessionStore x) [
                | none ↦ (false, s.store)
                | some _ ↦ (true, record s.store { sessions = erase id s.store.sessions })
              ]).1;
        })) [ none ↦ h | some _ ↦ h ]

  begins-IsSound :
      (id : ℕ) (principal : String) (ref : ℕ) (progress : RunProgress x) (t : Tracker)
      (s s' : System x)
      → begin_resume id principal s.store ≡ (ok (ref, progress, t), s'.store)
      → s'.flights ≡ ref ∷ s.flights
      → IsSound s
      → IsSound s'
  unfolding IsFlown count
  begins-IsSound id principal ref progress t s s' h f sound =
      let (c, found, a, u) = begin_resume-eq-ok id principal s.store s'.store h in
      let (alive, had, busy', kept) =
        acquire_for_resume-eq-ok c.entry (ap (λ r. (r, (acquire_for_resume c.entry).1)) a) in
      let flown : IsFlown (count ref s.flights) (some c) =
        subst (IsFlown (count ref s.flights)) found (sound.flown ref) in
      let none_flies = idle-none_flies (count ref s.flights) c flown had in
      let good : IsConsistent (acquire_for_resume c.entry).1 =
        acquire_for_resume-IsConsistent c.entry flown.0 in
      let out =
        update-IsSound ref (λ _. (acquire_for_resume c.entry).1) s c (ref ∷ s.flights) found sound
          (λ j ne. ground (arith, ==_iff ref j, ne))
          (good, ground (arith, none_flies, ==_iff ref ref), λ _. busy') in
      subst (λ fs. IsSoundAt s'.store.heap s'.store.next_ref fs) (sym f)
        (subst (λ v. IsSoundAt v.heap v.next_ref (ref ∷ s.flights)) (sym u) out)

  fewer-IsFlown : (n n' : ℕ) (o : Option (Cell x)) → IsFlown n o → n' ≤ n → IsFlown n' o
  unfolding IsFlown
  fewer-IsFlown n n' none h le = omega arith
  fewer-IsFlown n n' (some c) h le = (h.0, omega (arith, h.1), λ one. h.2 (omega (arith, h.1)))

  abandons-IsSound :
      (ref : ℕ) (s : System x)
      → 1 ≤ count ref s.flights
      → IsSound s
      → IsSound (record s { flights = land ref s.flights })
  abandons-IsSound ref s flies sound = record {
    flown = λ j.
        fewer-IsFlown (count j s.flights) _ (lookup j s.store.heap) (sound.flown j)
          (omega (arith, count-land ref j s.flights flies));
    fresh = sound.fresh;
  }

  IsFlown-cell :
      (n : ℕ) (o : Option (Cell x))
      → IsFlown n o
      → 1 ≤ n
      → (c : Cell x) × (o ≡ some c) × IsFlown n (some c)
  unfolding IsFlown
  IsFlown-cell n none h le = absurd (omega arith)
  IsFlown-cell n (some c) h le = (c, refl, h)

  -- The end of a resume that leaves a consistent entry.
  finish-IsSound :
      (ref : ℕ) (f : SessionEntry x → SessionEntry x) (s : System x)
      → 1 ≤ count ref s.flights
      → IsSound s
      → ((e : SessionEntry x) → IsBusy e → IsConsistent e → IsConsistent (f e))
      → IsSound (record { store = update ref f s.store; flights = land ref s.flights })
  unfolding IsFlown
  finish-IsSound ref f s flies sound good =
      let (c, found, flown) =
        IsFlown-cell (count ref s.flights) (lookup ref s.store.heap) (sound.flown ref) flies in
      let (one, busy, was) = flies-IsBusy (count ref s.flights) c flown flies in
      let none_flies : count ref (land ref s.flights) ≡ 0 =
        omega (arith, land_self ref s.flights flies) in
      update-IsSound ref f s c (land ref s.flights) found sound (land_other ref s.flights flies)
        (good c.entry busy was, omega arith, λ h. absurd (omega arith))

  finishes-IsSound :
      (ref now : ℕ) (result : ResumeResult x × Tracker) (s : System x)
      → 1 ≤ count ref s.flights
      → IsSound s
      → IsSound (record {
        store = (finish_resume ref now result s.store).1;
        flights = land ref s.flights;
      })
  unfolding finish_resume
  finishes-IsSound ref now (stepped step, t) s flies sound =
      finish-IsSound ref (store_step step t now) s flies sound
        (λ e _ _. store_step-IsConsistent step t now e)
  finishes-IsSound ref now (mismatch p e, t) s flies sound =
      finish-IsSound ref (restore p) s flies sound (restore-IsConsistent p)

  Step-IsSound : (s s' : System x) → Step s s' → IsSound s → IsSound s'
  unfolding reap_expired
  Step-IsSound s s' (creates principal ttl t step id now e) h =
      subst IsSound (sym e) (creates-IsSound principal ttl t step id now s h)
  Step-IsSound s s' (deletes id principal e) h =
      subst IsSound (sym e) (deletes-IsSound id principal s h)
  Step-IsSound s s' (reaps now e) h = subst IsSound (sym e) h
  Step-IsSound s s' (begins id principal ref progress t e f) h =
      begins-IsSound id principal ref progress t s s' e f h
  Step-IsSound s s' (finishes ref now result flies e) h =
      subst IsSound (sym e) (finishes-IsSound ref now result s flies h)
  Step-IsSound s s' (abandons ref flies e) h =
      subst IsSound (sym e) (abandons-IsSound ref s flies h)

  -- Soundness holds after any steps of any requests, in any order.
  pub Steps-IsSound : {s s' : System x} → Steps s s' → IsSound s → IsSound s'
  Steps-IsSound stays h = h
  Steps-IsSound (follows before step) h = Step-IsSound _ _ step (Steps-IsSound before h)

  pub empty-IsSound : (max_sessions : ℕ) → IsSound (empty_system {x = x} max_sessions)
  unfolding Store.new lookup count IsFlown
  empty-IsSound max_sessions = record { flown = λ ref. refl; fresh = λ ref _. refl }

  -- From the empty store, whatever steps of requests come in whatever order: while a resume of a
  -- session is in flight it is the only one on that session, and the session's entry is unfinished,
  -- has given its program away and still shows the pause.
  pub single_flight :
      (max_sessions : ℕ) {s : System x} (ref : ℕ)
      → Steps (empty_system max_sessions) s
      → 1 ≤ count ref s.flights
      → (count ref s.flights ≡ 1)
        × (c : Cell x) × (lookup ref s.store.heap ≡ some c)
        × IsBusy c.entry
        × IsConsistent c.entry
  single_flight max_sessions {s} ref steps flies =
      let sound = Steps-IsSound steps (empty-IsSound max_sessions) in
      let (c, found, flown) =
        IsFlown-cell (count ref s.flights) (lookup ref s.store.heap) (sound.flown ref) flies in
      let (one, busy, good) = flies-IsBusy (count ref s.flights) c flown flies in
      (one, c, found, busy, good)
