-- ===== src/Api/Sessions/Flights/Apart.antt =====
-- What one principal sees while requests of others interleave (src/api/sessions.rs, src/session.rs),
-- the halves of their resumes as well, and the reaper sweeps.
use monty_server.Common.{
  ℕ, ◌≤◌, ◌≡◌, ◌≢◌, refl, sym, ◌∙◌, subst, ◌⊎◌, inl, inr, String, Option, none, some, nat_key,
  lookup, arith, Option-cases, Bool-cases, leb, leb→le,
}
use monty_server.Tracker.{Tracker}
use monty_server.External.{Types}
use monty_server.Engine.{ResumeResult, stepped, mismatch}
use monty_server.Session.{SessionEntry, Cell, SessionStore, update, reap_expired}
use monty_server.Session as Store
use monty_server.Session.Isolation.{seen, seen-remove}
use monty_server.Session.Links.{IsLinked, remove-IsLinked, reap_expired-IsLinked}
use monty_server.Session.Expiry.{unexpired, seen-reap_expired}
use monty_server.Api.Sessions.Handlers.{finish_resume}
use monty_server.Api.Sessions.Spared.{
  Spares, Begun, begin_resume-Begun, finish_resume-Spares, create-Spares_store,
}
use monty_server.Api.Sessions.Flights.{
  System, Step, Steps, creates, deletes, reaps, begins, finishes, abandons, empty_system,
}
use monty_server.Api.Sessions.Flights.Linked.{Steps-IsLinked}

module _ {x : Types} where
  -- A step that is not on behalf of the principal `p`. A creation draws an unused uuid, the second
  -- half of a resume is on behalf of the one who owns the entry, and no reaping is after `latest`.
  abbrev pub IsOthers : (p : String) → (latest : ℕ) → {s s' : System x} → Step s s' → Type 0
  IsOthers p latest {s} (creates q ttl t step id now e) =
      (q ≢ p) × (lookup id s.store.sessions ≡ none)
  IsOthers p latest (deletes id q e) = q ≢ p
  IsOthers p latest (reaps now e) = now ≤ latest
  IsOthers p latest (begins id q ref progress t e f) = q ≢ p
  IsOthers p latest {s} (finishes ref now result n e) =
      (c : Cell x) → lookup ref s.store.heap ≡ some c → c.entry.principal ≢ p
  IsOthers p latest (abandons ref n e) = Unit

  pub data OthersSteps (p : String) (latest : ℕ) (s : System x) : System x → Type 0 where
    stays : OthersSteps p latest s s
    follows :
        {u s' : System x}
        → OthersSteps p latest s u
        → (step : Step u s') → IsOthers p latest step
        → OthersSteps p latest s s'

  -- Of what was seen under an id, and what is seen: it is the same, or it is gone and had expired.
  abbrev pub Lasting : (latest : ℕ) → (before after : Option (SessionEntry x)) → Type 0
  Lasting latest before after =
      (after ≡ before)
      ⊎ ((after ≡ none) × (e : SessionEntry x) × (before ≡ some e) × (e.expires_at ≤ latest))

  pub Lasting-trans :
      (latest : ℕ) (a b c : Option (SessionEntry x))
      → Lasting latest a b
      → Lasting latest b c
      → Lasting latest a c
  Lasting-trans latest a b c (inl same) (inl same') = inl (same' ∙ same)
  Lasting-trans latest a b c (inl same) (inr (gone, e, had, over)) =
      inr (gone, e, sym same ∙ had, over)
  Lasting-trans latest a b c (inr (gone, e, had, over)) (inl same) = inr (same ∙ gone, e, had, over)
  Lasting-trans latest a b c (inr (gone, e, had, over)) (inr (gone', _, _, _)) =
      inr (gone', e, had, over)

  Lasts : String → ℕ → SessionStore x → SessionStore x → Type 0
  Lasts p latest s s' = (id : ℕ) → Lasting latest (seen p id s) (seen p id s')

  -- What a step of others does to the store.
  record Keeps (p : String) (latest : ℕ) (s s' : SessionStore x) : Type 0 where
    lasts : Lasts p latest s s'
    linked : IsLinked s'

  spared-Keeps :
      (latest : ℕ) (p q : String) (s s' : SessionStore x)
      → Spares q s s'
      → q ≢ p
      → IsLinked s
      → Keeps p latest s s'
  unfolding Lasts
  spared-Keeps latest p q s s' spares other h = record {
    lasts = λ id. inl (spares.hidden p other id);
    linked = spares.linked h;
  }

  pub expired-Lasting :
      (latest now : ℕ) (o : Option (SessionEntry x))
      → now ≤ latest
      → Lasting latest o (unexpired now o)
  expired-Lasting latest now none le = inl refl
  expired-Lasting latest now (some e) le = elim (Bool-cases (leb e.expires_at now)) [
    | inl over ↦ inr (rw over refl, e, refl, omega (arith, leb→le e.expires_at now over, le))
    | inr alive ↦ inl (rw alive refl)
  ]

  reaps-Keeps :
      (latest : ℕ) (p : String) (now : ℕ) (s : SessionStore x)
      → now ≤ latest
      → IsLinked s
      → Keeps p latest s (reap_expired now s).1
  unfolding Lasts
  reaps-Keeps latest p now s le h = record {
    lasts = λ id.
        subst (Lasting latest (seen p id s)) (sym (seen-reap_expired now s h.distinct p id))
          (expired-Lasting latest now (seen p id s) le);
    linked = reap_expired-IsLinked now s h;
  }

  finish_resume_absent :
      (ref now : ℕ) (result : ResumeResult x × Tracker) (s : SessionStore x)
      → lookup ref s.heap ≡ none
      → (finish_resume ref now result s).1 ≡ s
  unfolding finish_resume update
  finish_resume_absent ref now (stepped step, t) s absent = rw (finish_resume, update, absent) refl
  finish_resume_absent ref now (mismatch progress e, t) s absent =
      rw (finish_resume, update, absent) refl

  finishes-Keeps :
      (latest : ℕ) (p : String) (ref now : ℕ) (result : ResumeResult x × Tracker)
      (s : SessionStore x)
      → ((c : Cell x) → lookup ref s.heap ≡ some c → c.entry.principal ≢ p)
      → IsLinked s
      → Keeps p latest s (finish_resume ref now result s).1
  unfolding Lasts
  finishes-Keeps latest p ref now result s others h = elim (Option-cases (lookup ref s.heap)) [
    | inl absent ↦
        subst (Keeps p latest s) (sym (finish_resume_absent ref now result s absent))
          (record { lasts = λ id. inl refl; linked = h })
    | inr (c, found) ↦
        spared-Keeps latest p c.entry.principal s (finish_resume ref now result s).1
          (finish_resume-Spares c.entry.principal ref now result s
            (record { cell = c; found = found; owner = refl }))
          (others c found) h
  ]

  KeepsTo : String → ℕ → System x → System x → Type 0
  KeepsTo p latest s u = Keeps p latest s.store u.store

  Step-Keeps :
      (latest : ℕ) (p : String) {s s' : System x} (step : Step s s')
      → IsOthers p latest step
      → IsLinked s.store
      → Keeps p latest s.store s'.store
  unfolding Lasts KeepsTo
  Step-Keeps latest p {s} (creates q ttl t step id now e) (other, unused) h =
      subst (KeepsTo p latest s) (sym e) (
        spared-Keeps latest p q s.store (Store.create q ttl t step id now s.store).1
          (create-Spares_store q ttl t step id now s.store h unused) other h)
  Step-Keeps latest p {s} (deletes id q e) other h = subst (KeepsTo p latest s) (sym e) (
      spared-Keeps latest p q s.store (Store.remove id q s.store).1
        (record {
          hidden = λ principal differ. seen-remove q principal id s.store differ;
          linked = remove-IsLinked id q s.store;
        })
        other h)
  Step-Keeps latest p {s} (reaps now e) others h =
      subst (KeepsTo p latest s) (sym e) (reaps-Keeps latest p now s.store others h)
  Step-Keeps latest p {s} {s'} (begins id q ref progress t e f) other h =
      spared-Keeps latest p q s.store s'.store
        (subst (Begun q s.store) e (begin_resume-Begun q id s.store)).0 other h
  Step-Keeps latest p {s} (finishes ref now result n e) others h =
      subst (KeepsTo p latest s) (sym e) (finishes-Keeps latest p ref now result s.store others h)
  Step-Keeps latest p {s} (abandons ref n e) others h =
      subst (KeepsTo p latest s) (sym e) (record { lasts = λ id. inl refl; linked = h })

  OthersSteps-Keeps :
      (latest : ℕ) (p : String) {s s' : System x}
      → OthersSteps p latest s s'
      → IsLinked s.store
      → Keeps p latest s.store s'.store
  unfolding Lasts
  OthersSteps-Keeps latest p stays h = record { lasts = λ id. inl refl; linked = h }
  OthersSteps-Keeps latest p (follows before step others) h =
      let first = OthersSteps-Keeps latest p before h in
      let last = Step-Keeps latest p step others first.linked in
      record {
        lasts = λ id. Lasting-trans latest _ _ _ (first.lasts id) (last.lasts id);
        linked = last.linked;
      }

  -- In every state that steps of requests lead to from the empty store, and however then the steps
  -- of other principals' requests interleave, the halves of their resumes as well, with the sweeps
  -- of the reaper up to `latest`: under every id a principal sees the same entry as before, or the
  -- entry had expired by `latest` and is gone. A creation of another draws a uuid that is not in
  -- use.
  pub others_keep :
      (max_sessions latest : ℕ) (p : String) {s s' : System x}
      → Steps (empty_system max_sessions) s
      → OthersSteps p latest s s'
      → (id : ℕ) → Lasting latest (seen p id s.store) (seen p id s'.store)
  unfolding Lasts
  others_keep max_sessions latest p before others id =
      (OthersSteps-Keeps latest p others (Steps-IsLinked max_sessions before)).lasts id
