-- ===== src/Api/Sessions/Spared.antt =====
-- What the parts of `resume` (src/api/sessions.rs) leave of the sessions of others.
use monty_server.Common.{
  subst, none, Bool-cases, inl, inr, sym, ℕ, ◌≡◌, ◌≢◌, refl, ◌∙◌, String, some, Result, ok, err,
  arith, nat_key, lookup, Option-cases, ==_iff,
}
use monty_server.Error.{ApiResult}
use monty_server.Tracker.{Tracker}
use monty_server.External.{Types, RunProgress}
use monty_server.Engine.{SessionStep, ResumeResult, stepped, mismatch}
use monty_server.Session.{
  has_room, new_entry, SessionEntry, Cell, SessionStore, AcquireError, get, update,
  acquire_for_resume, restore, store_step,
}
use monty_server.Session.Entries.{lookup-update}
use monty_server.Session.Owners.{get-principal, created}
use monty_server.Session.Isolation.{seen, seen-update, seen-insert_entry}
use monty_server.Session as Store
use monty_server.Session.Links.{insert_entry-IsLinked, IsLinked, update-IsLinked}
use monty_server.Api.Sessions.Handlers.{acquired_at, begin_resume, finish_resume}

module _ {x : Types} where
  -- What a request of `caller` may do to the store: nobody else sees it, and references stay old.
  pub record Spares (caller : String) (s s' : SessionStore x) : Type 0 where
    pub hidden :
        (principal : String)
        → caller ≢ principal
        → (id : ℕ) → seen principal id s' ≡ seen principal id s
    pub linked : IsLinked s → IsLinked s'

  pub Spares-refl : (caller : String) (s : SessionStore x) → Spares caller s s
  Spares-refl caller s = record { hidden = λ principal other id. refl; linked = λ h. h }

  pub Spares-trans :
      {caller : String} {s u s' : SessionStore x}
      → Spares caller s u
      → Spares caller u s'
      → Spares caller s s'
  Spares-trans a b = record {
    hidden = λ principal other id. b.hidden principal other id ∙ a.hidden principal other id;
    linked = λ h. b.linked (a.linked h);
  }

  -- A cell of the caller under a reference.
  pub record IsOwned (caller : String) (ref : ℕ) (s : SessionStore x) : Type 0 where
    pub cell : Cell x
    pub found : lookup ref s.heap ≡ some cell
    pub owner : cell.entry.principal ≡ caller

  Spares-update :
      (caller : String) (ref : ℕ) (f : SessionEntry x → SessionEntry x) (s : SessionStore x)
      (own : IsOwned caller ref s)
      → (f own.cell.entry).principal ≡ caller
      → Spares caller s (update ref f s)
  Spares-update caller ref f s own same = record {
    hidden = λ principal other id.
        seen-update caller principal ref f s own.cell other own.found own.owner same id;
    linked = update-IsLinked ref f s;
  }

  get-IsOwned :
      (caller : String) (id : ℕ) (s : SessionStore x) {ref : ℕ}
      → get id caller s ≡ some ref
      → IsOwned caller ref s
  get-IsOwned caller id s got =
      let (c, _, found, owner) = get-principal id caller s got in
      record { cell = c; found = found; owner = owner }

  pub finish_resume-Spares :
      (caller : String) (ref now : ℕ) (result : ResumeResult x × Tracker) (s : SessionStore x)
      → IsOwned caller ref s
      → Spares caller s (finish_resume ref now result s).1
  unfolding finish_resume store_step restore
  finish_resume-Spares caller ref now (stepped step, t) s own =
      Spares-update caller ref (store_step step t now) s own own.owner
  finish_resume-Spares caller ref now (mismatch p e, t) s own =
      Spares-update caller ref (restore p) s own own.owner

  update-IsOwned :
      (caller : String) (ref : ℕ) (f : SessionEntry x → SessionEntry x) (s : SessionStore x)
      (own : IsOwned caller ref s)
      → (f own.cell.entry).principal ≡ caller
      → IsOwned caller ref (update ref f s)
  update-IsOwned caller ref f s own same = record {
    cell = record own.cell { entry = f own.cell.entry };
    found = ground (arith, lookup-update ref ref f s own.cell own.found, ==_iff ref ref);
    owner = same;
  }

  -- The start of a resume spares the others, and what it holds afterwards is the caller's.
  abbrev pub Begun :
      (caller : String) (s : SessionStore x)
      → ApiResult (ℕ × RunProgress x × Tracker) × SessionStore x
      → Type 0
  Begun caller s (err e, s') = Spares caller s s'
  Begun caller s (ok (ref, _, _), s') = Spares caller s s' × IsOwned caller ref s'

  acquired_at-Begun :
      (caller : String) (ref : ℕ) (s : SessionStore x)
      (a : Result (RunProgress x × Tracker) AcquireError × SessionEntry x)
      → IsOwned caller ref s
      → a.1.principal ≡ caller
      → Begun caller s (acquired_at ref s a)
  unfolding acquired_at
  acquired_at-Begun caller ref s (err f, e) own same = Spares-refl caller s
  acquired_at-Begun caller ref s (ok (p, t), e) own same =
      (Spares-update caller ref (λ _. e) s own same, update-IsOwned caller ref (λ _. e) s own same)

  pub acquire_for_resume-principal :
      (e : SessionEntry x) → (acquire_for_resume e).1.principal ≡ e.principal
  unfolding acquire_for_resume
  acquire_for_resume-principal e = ground (arith, e.terminal, e.progress)

  pub begin_resume-Begun :
      (caller : String) (id : ℕ) (s : SessionStore x) → Begun caller s (begin_resume id caller s)
  unfolding begin_resume
  begin_resume-Begun caller id s = elim (Option-cases (get id caller s)) [
    | inl absent ↦ rw (begin_resume, absent) (Spares-refl caller s)
    | inr (ref, got) ↦
        let own = get-IsOwned caller id s got in
        rw (begin_resume, got, own.found)
          (acquired_at-Begun caller ref s (acquire_for_resume own.cell.entry) own
            (acquire_for_resume-principal own.cell.entry ∙ own.owner))
  ]

  -- What a successful start of a session leaves.
  pub create-Spares_store :
      (caller : String) (ttl : ℕ) (t : Tracker) (step : SessionStep x) (id now : ℕ)
      (s : SessionStore x)
      → IsLinked s
      → lookup id s.sessions ≡ none
      → Spares caller s (Store.create caller ttl t step id now s).1
  unfolding Store.create new_entry
  create-Spares_store caller ttl t step id now s h unused = elim (Bool-cases (has_room s)) [
    | inl room ↦ subst (Spares caller s) (sym (created caller ttl t step id now s room)) (record {
      hidden = λ principal other.
          seen-insert_entry (new_entry caller ttl t step now) id principal s other h unused;
      linked = insert_entry-IsLinked id (new_entry caller ttl t step now) s;
    })
    | inr full ↦ rw (Store.create, full) (Spares-refl caller s)
  ]
