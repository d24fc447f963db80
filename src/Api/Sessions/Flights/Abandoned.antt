-- ===== src/Api/Sessions/Flights/Abandoned.antt =====
-- A `resume` (src/api/sessions.rs) whose result is never stored, since its task failed or its request
-- was dropped.
use monty_server.Common.{
  ℕ, ◌≤◌, ◌<◌, ◌≡◌, ◌≢◌, Bool, true, false, none, some, List, ◌∷◌, Result, ok, err, arith, nat_key,
  lookup, insert, erase, String, ==_iff, subst, sym, ap, ◌∙◌, lookup-insert_ne, if◌then◌else◌,
}
use monty_server.Error.{session_busy}
use monty_server.Tracker.{Tracker}
use monty_server.External.{Types, RunProgress}
use monty_server.Engine.{ResumeResult, SessionStep, stepped, mismatch}
use monty_server.Session.{
  SessionStore, SessionEntry, Cell, CreateError, at_capacity, create, insert_entry, new_entry,
  has_room, remove, get, update, reap_expired, acquire_for_resume, busy,
}
use monty_server.Session.Entries.{IsBusy, acquire_for_resume-eq-ok}
use monty_server.Api.Sessions.View.{acquire_error}
use monty_server.Api.Sessions.Handlers.{begin_resume, finish_resume, acquired_at}
use monty_server.Api.Sessions.Flights.{
  System, count, land, Step, creates, deletes, reaps, begins, finishes, abandons, Steps, stays,
  follows, empty_system,
}
use monty_server.Api.Sessions.Flights.Acquired.{
  land_self, land_other, begin_resume-eq-ok, begin_resume_found,
}
use monty_server.Api.Sessions.Flights.Single.{Steps-IsSound, empty-IsSound, single_flight}

module _ {x : Types} (ref : ℕ) where
  -- The entry is busy, and no resume of it is in flight.
  pub record IsAbandonedAt (heap : List (ℕ × Cell x)) (next : ℕ) (flights : List ℕ) : Type 0 where
    pub none_flies : count ref flights ≡ 0
    pub cell : Cell x
    pub found : lookup ref heap ≡ some cell
    pub busy : IsBusy cell.entry
    pub old : ref < next

  abbrev pub IsAbandoned : System x → Type 0
  IsAbandoned s = IsAbandonedAt s.store.heap s.store.next_ref s.flights

  creates-IsAbandoned :
      (principal : String) (ttl : ℕ) (t : Tracker) (step : SessionStep x) (id now : ℕ)
      (s : System x)
      → IsAbandoned s
      → IsAbandoned (record s { store = (create principal ttl t step id now s.store).1 })
  unfolding create insert_entry
  creates-IsAbandoned principal ttl t step id now s h =
      elim (has_room s.store)
        as (λ b. IsAbandoned (record s {
          store =
              (if◌then◌else◌ {A = Result ℕ CreateError × SessionStore x} b
                (ok id, insert_entry id (new_entry principal ttl t step now) s.store)
                (err (at_capacity s.store.max_sessions), s.store)).1;
        })) [
          | true ↦ record {
            none_flies = h.none_flies;
            cell = h.cell;
            found =
                lookup-insert_ne s.store.next_ref ref _ s.store.heap (omega (arith, h.old))
                ∙ h.found;
            busy = h.busy;
            old = omega (arith, h.old);
          }
          | false ↦ h
        ]

  deletes-IsAbandoned :
      (id : ℕ) (principal : String) (s : System x)
      → IsAbandoned s
      → IsAbandoned (record s { store = (remove id principal s.store).1 })
  unfolding remove
  deletes-IsAbandoned id principal s h =
      elim (get id principal s.store)
        as (λ o. IsAbandoned (record s {
          store =
              (elim o as (λ _. Bool × SessionStore x) [
                | none ↦ (false, s.store)
                | some _ ↦ (true, record s.store { sessions = erase id s.store.sessions })
              ]).1;
        })) [ none ↦ h | some _ ↦ h ]

  -- Another entry changes, and the flights on it.
  elsewhere-IsAbandoned :
      (other : ℕ) (f : SessionEntry x → SessionEntry x) (s : System x) (flights' : List ℕ)
      → other ≢ ref
      → count ref flights' ≡ count ref s.flights
      → IsAbandoned s
      → IsAbandoned (record { store = update other f s.store; flights = flights' })
  unfolding update
  elsewhere-IsAbandoned other f s flights' ne same h =
      elim (lookup other s.store.heap)
        as (λ o. IsAbandoned (record {
          store = elim o as (λ _. SessionStore x) [
            | none ↦ s.store
            | some c ↦ record s.store {
              heap = insert other (record c { entry = f c.entry }) s.store.heap;
            }
          ];
          flights = flights';
        })) [
          | none ↦ record {
            none_flies = same ∙ h.none_flies;
            cell = h.cell;
            found = h.found;
            busy = h.busy;
            old = h.old;
          }
          | some c ↦ record {
            none_flies = same ∙ h.none_flies;
            cell = h.cell;
            found = lookup-insert_ne other ref _ s.store.heap ne ∙ h.found;
            busy = h.busy;
            old = h.old;
          }
        ]

  begins-IsAbandoned :
      (id : ℕ) (principal : String) (r : ℕ) (p : RunProgress x) (t : Tracker) (s s' : System x)
      → begin_resume id principal s.store ≡ (ok (r, p, t), s'.store)
      → s'.flights ≡ r ∷ s.flights
      → IsAbandoned s
      → IsAbandoned s'
  unfolding count
  begins-IsAbandoned id principal r p t s s' e f h =
      let (c, found, a, u) = begin_resume-eq-ok id principal s.store s'.store e in
      let (_, had, _, _) =
        acquire_for_resume-eq-ok c.entry (ap (λ q. (q, (acquire_for_resume c.entry).1)) a) in
      let ne : r ≢ ref = λ same.
        let found' = subst (λ i. lookup i s.store.heap ≡ some c) same found in
        let cells : c ≡ h.cell = cc (found', h.found) in
        let gone = subst (λ d. d.entry.progress ≡ none) (sym cells) h.busy.taken in
        cc (had, gone) in
      let out =
        elsewhere-IsAbandoned r (λ _. (acquire_for_resume c.entry).1) s (r ∷ s.flights) ne
          (ground (arith, ==_iff r ref, ne)) h in
      subst (λ fs. IsAbandonedAt s'.store.heap s'.store.next_ref fs) (sym f)
        (subst (λ v. IsAbandonedAt v.heap v.next_ref (r ∷ s.flights)) (sym u) out)

  flies_elsewhere :
      (other : ℕ) (s : System x) → 1 ≤ count other s.flights → IsAbandoned s → other ≢ ref
  flies_elsewhere other s le h same =
      absurd (omega (arith, le, subst (λ i. count i s.flights ≡ 0) (sym same) h.none_flies))

  finishes-IsAbandoned :
      (r now : ℕ) (result : ResumeResult x × Tracker) (s : System x)
      → 1 ≤ count r s.flights
      → IsAbandoned s
      → IsAbandoned
          (record { store = (finish_resume r now result s.store).1; flights = land r s.flights })
  unfolding finish_resume
  finishes-IsAbandoned r now (stepped step, t) s le h =
      let ne = flies_elsewhere r s le h in
      elsewhere-IsAbandoned r _ s _ ne (land_other r s.flights le ref ne) h
  finishes-IsAbandoned r now (mismatch p e, t) s le h =
      let ne = flies_elsewhere r s le h in
      elsewhere-IsAbandoned r _ s _ ne (land_other r s.flights le ref ne) h

  Step-IsAbandoned : (s s' : System x) → Step s s' → IsAbandoned s → IsAbandoned s'
  unfolding reap_expired
  Step-IsAbandoned s s' (creates principal ttl t step id now e) h =
      subst IsAbandoned (sym e) (creates-IsAbandoned principal ttl t step id now s h)
  Step-IsAbandoned s s' (deletes id principal e) h =
      subst IsAbandoned (sym e) (deletes-IsAbandoned id principal s h)
  Step-IsAbandoned s s' (reaps now e) h = subst IsAbandoned (sym e) h
  Step-IsAbandoned s s' (begins id principal r progress t e f) h =
      begins-IsAbandoned id principal r progress t s s' e f h
  Step-IsAbandoned s s' (finishes r now result flies e) h =
      subst IsAbandoned (sym e) (finishes-IsAbandoned r now result s flies h)
  Step-IsAbandoned s s' (abandons r flies e) h = subst IsAbandoned (sym e) (record {
    none_flies = land_other r s.flights flies ref (flies_elsewhere r s flies h) ∙ h.none_flies;
    cell = h.cell;
    found = h.found;
    busy = h.busy;
    old = h.old;
  })

  Steps-IsAbandoned : {s s' : System x} → Steps s s' → IsAbandoned s → IsAbandoned s'
  Steps-IsAbandoned stays h = h
  Steps-IsAbandoned (follows before step) h = Step-IsAbandoned _ _ step (Steps-IsAbandoned before h)

  busy_acquire : (e : SessionEntry x) → IsBusy e → acquire_for_resume e ≡ (err busy, e)
  unfolding acquire_for_resume
  busy_acquire e b = ground (arith, b.alive, b.taken)

  pub busy_refuses :
      (e : SessionEntry x) (s : SessionStore x)
      → IsBusy e
      → acquired_at ref s (acquire_for_resume e) ≡ (err session_busy, s)
  unfolding acquired_at acquire_error
  busy_refuses e s b = ap (acquired_at ref s) (busy_acquire e b)

  -- From the empty store: once a resume in flight on a session ends without a result, every later
  -- resume of that session that finds it is refused as busy and changes nothing, whatever steps of
  -- requests come in between.
  pub abandoned_stays_busy :
      (max_sessions : ℕ) {s s' : System x}
      → Steps (empty_system max_sessions) s
      → 1 ≤ count ref s.flights
      → Steps (record s { flights = land ref s.flights }) s'
      → (id : ℕ) (principal : String) → get id principal s'.store ≡ some ref
      → begin_resume id principal s'.store ≡ (err session_busy, s'.store)
  abandoned_stays_busy max_sessions {s} {s'} before flies after id principal got =
      let sound = Steps-IsSound before (empty-IsSound max_sessions) in
      let (one, c, found, taken, _) = single_flight max_sessions ref before flies in
      let start : IsAbandoned (record s { flights = land ref s.flights }) = record {
        none_flies = omega (arith, land_self ref s.flights flies, one);
        cell = c;
        found = found;
        busy = taken;
        old = ground (arith, sound.fresh ref, found);
      } in
      let end = Steps-IsAbandoned after start in
      begin_resume_found id principal s'.store ref end.cell got end.found
      ∙ busy_refuses end.cell.entry s'.store end.busy
