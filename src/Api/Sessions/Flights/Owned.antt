-- ===== src/Api/Sessions/Flights/Owned.antt =====
-- Whose an entry is (src/session.rs): an entry that a reference leads to stays there, and stays its
-- principal's, whether it is in the map or not.
use monty_server.Common.{
  ℕ, ◌≡◌, ◌≢◌, refl, sym, subst, ap, ◌∙◌, none, some, String, Bool-cases, Option-cases, inl, inr,
  arith, nat_key, lookup, lookup-insert_ne, ◌==◌, ==_iff,
}
use monty_server.Tracker.{Tracker}
use monty_server.External.{Types}
use monty_server.Engine.{ResumeResult, SessionStep, stepped, mismatch}
use monty_server.Session as Store
use monty_server.Session.{
  SessionStore, SessionEntry, Cell, update, acquire_for_resume, restore, store_step, insert_entry,
  new_entry, remove, reap_expired, get,
}
use monty_server.Session.Entries.{lookup-update}
use monty_server.Session.Owners.{created}
use monty_server.Api.Sessions.Handlers.{finish_resume}
use monty_server.Api.Sessions.Spared.{acquire_for_resume-principal}
use monty_server.Api.Sessions.Flights.{
  System, Step, Steps, creates, deletes, reaps, begins, finishes, abandons, stays, follows,
}
use monty_server.Api.Sessions.Flights.Acquired.{begin_resume-eq-ok}
use monty_server.Api.Sessions.Flights.Sound.{IsSound}
use monty_server.Api.Sessions.Flights.Single.{Steps-IsSound}

module _ {x : Types} where
  -- An entry of somebody else than `p` is behind the reference.
  pub record IsAnothers (p : String) (ref : ℕ) (s : SessionStore x) : Type 0 where
    pub cell : Cell x
    pub found : lookup ref s.heap ≡ some cell
    pub other : cell.entry.principal ≢ p

  -- Entries of others than `p` stay such.
  KeepsOwners : String → SessionStore x → SessionStore x → Type 0
  KeepsOwners p s s' = (ref : ℕ) → IsAnothers p ref s → IsAnothers p ref s'

  update-KeepsOwners :
      (p : String) (ref : ℕ) (f : SessionEntry x → SessionEntry x) (s : SessionStore x)
      → ((c : Cell x) → lookup ref s.heap ≡ some c → (f c.entry).principal ≡ c.entry.principal)
      → KeepsOwners p s (update ref f s)
  unfolding KeepsOwners update
  update-KeepsOwners p ref f s same j h = elim (Option-cases (lookup ref s.heap)) [
    | inl absent ↦ rw (update, absent) h
    | inr (c, found) ↦ elim (Bool-cases (ref == j)) [
      | inl here ↦ record {
        cell = record c { entry = f c.entry };
        found = lookup-update ref j f s c found ∙ rw here refl;
        other =
            let e : c ≡ h.cell = ground (arith, found, h.found, (==_iff ref j).0 here) in
            λ q. h.other (ap (λ (d : Cell x). d.entry.principal) (sym e) ∙ sym (same c found) ∙ q);
      }
      | inr there ↦ record {
        cell = h.cell;
        found = lookup-update ref j f s c found ∙ rw there h.found;
        other = h.other;
      }
    ]
  ]

  finish_resume-KeepsOwners :
      (p : String) (ref now : ℕ) (result : ResumeResult x × Tracker) (s : SessionStore x)
      → KeepsOwners p s (finish_resume ref now result s).1
  unfolding finish_resume store_step restore
  finish_resume-KeepsOwners p ref now (stepped step, t) s =
      update-KeepsOwners p ref (store_step step t now) s (λ c found. refl)
  finish_resume-KeepsOwners p ref now (mismatch progress e, t) s =
      update-KeepsOwners p ref (restore progress) s (λ c found. refl)

  create-KeepsOwners :
      (p q : String) (ttl : ℕ) (t : Tracker) (step : SessionStep x) (id now : ℕ)
      (s : SessionStore x)
      → lookup s.next_ref s.heap ≡ none
      → KeepsOwners p s (Store.create q ttl t step id now s).1
  unfolding KeepsOwners Store.create insert_entry
  create-KeepsOwners p q ttl t step id now s absent ref h = elim (Bool-cases (Store.has_room s)) [
    | inl room ↦ rw (created q ttl t step id now s room) (record {
      cell = h.cell;
      found =
          lookup-insert_ne s.next_ref ref _ s.heap (λ e. ground (arith, absent, h.found, e))
          ∙ h.found;
      other = h.other;
    })
    | inr full ↦ rw (Store.create, full) h
  ]

  remove-KeepsOwners :
      (p q : String) (id : ℕ) (s : SessionStore x) → KeepsOwners p s (remove id q s).1
  unfolding KeepsOwners remove
  remove-KeepsOwners p q id s ref h = elim (Option-cases (get id q s)) [
    | inl absent ↦ rw (remove, absent) h
    | inr (r, got) ↦ rw (remove, got) (record { cell = h.cell; found = h.found; other = h.other })
  ]

  Step-KeepsOwners :
      (p : String) (s s' : System x) → Step s s' → IsSound s → KeepsOwners p s.store s'.store
  unfolding KeepsOwners reap_expired
  Step-KeepsOwners p s s' (creates q ttl t step id now e) sound ref h =
      subst (λ (v : System x). IsAnothers p ref v.store) (sym e)
        (create-KeepsOwners p q ttl t step id now s.store
          (sound.fresh s.store.next_ref (omega arith)) ref h)
  Step-KeepsOwners p s s' (deletes id q e) sound ref h =
      subst (λ (v : System x). IsAnothers p ref v.store) (sym e)
        (remove-KeepsOwners p q id s.store ref h)
  Step-KeepsOwners p s s' (reaps now e) sound ref h =
      subst (λ (v : System x). IsAnothers p ref v.store) (sym e)
        (record { cell = h.cell; found = h.found; other = h.other })
  Step-KeepsOwners p s s' (begins id q r progress t e f) sound ref h =
      let (c, found, got, out) = begin_resume-eq-ok id q s.store s'.store e in
      subst (IsAnothers p ref) (sym out) (
        update-KeepsOwners p r (λ _. (acquire_for_resume c.entry).1) s.store
          (λ d found'.
            let same : c ≡ d = ground (arith, found, found') in
            acquire_for_resume-principal c.entry ∙ ap (λ (v : Cell x). v.entry.principal) same)
          ref h)
  Step-KeepsOwners p s s' (finishes r now result n e) sound ref h =
      subst (λ (v : System x). IsAnothers p ref v.store) (sym e)
        (finish_resume-KeepsOwners p r now result s.store ref h)
  Step-KeepsOwners p s s' (abandons r n e) sound ref h =
      subst (λ (v : System x). IsAnothers p ref v.store) (sym e) h

  pub Steps-KeepsOwners :
      (p : String) {s s' : System x}
      → IsSound s
      → Steps s s'
      → (ref : ℕ) → IsAnothers p ref s.store
      → IsAnothers p ref s'.store
  unfolding KeepsOwners
  Steps-KeepsOwners p sound stays ref h = h
  Steps-KeepsOwners p sound (follows before step) ref h =
      Step-KeepsOwners p _ _ step (Steps-IsSound before sound) ref
        (Steps-KeepsOwners p sound before ref h)
