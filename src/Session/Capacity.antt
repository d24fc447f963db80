-- ===== src/Session/Capacity.antt =====
-- `create` (src/session.rs) tests the capacity and inserts later, so other requests may come in between.
use monty_server.Common.{
  ℕ, suc, ◌+◌, ◌-◌, ◌≤◌, ◌<◌, ◌≡◌, refl, sym, subst, Bool, true, false, List, [], ◌∷◌, arith,
  length, nat_key, erase, length-insert-le, length-erase-le, ◌∙◌, String, none, some,
}
use monty_server.External.{Types}
use monty_server.Session.{
  SessionEntry, SessionStore, new, len, has_room, insert_entry, remove, get, reap_expired,
  remove_all, expired_ids,
}

length-remove_all : (ids : List ℕ) (m : List (ℕ × ℕ)) → length (remove_all ids m) ≤ length m
unfolding remove_all
length-remove_all [] m = omega arith
length-remove_all (id ∷ ids) m =
    omega (arith, length-remove_all ids (erase id m), length-erase-le id m)

-- The store, and the number of requests between the test and the insertion of their `create`.
pub record Creation (x : Types) : Type 0 where
  pub store : SessionStore x
  pub cleared : ℕ

module _ {x : Types} where
  -- One step, when at most `creators` requests are creating a session at a time.
  pub data Turn (creators : ℕ) (s s' : Creation x) : Type 0 where
    tests :
        has_room s.store ≡ true
        → s.cleared < creators
        → s' ≡ record s { cleared = suc s.cleared }
        → Turn creators s s'
    inserts :
        (id : ℕ) (e : SessionEntry x)
        → 1 ≤ s.cleared
        → s' ≡ record { store = insert_entry id e s.store; cleared = s.cleared - 1 }
        → Turn creators s s'
    removes :
        (id : ℕ) (principal : String)
        → s' ≡ record s { store = (remove id principal s.store).1 }
        → Turn creators s s'
    reaps : (now : ℕ) → s' ≡ record s { store = (reap_expired now s.store).1 } → Turn creators s s'

  pub data Turns (creators : ℕ) (s : Creation x) : Creation x → Type 0 where
    stays : Turns creators s s
    follows : {u s' : Creation x} → Turns creators s u → Turn creators u s' → Turns creators s s'

  -- The sessions, with those about to come, and the capacity.
  record IsFitting (max_sessions creators : ℕ) (s : Creation x) : Type 0 where
    capacity : s.store.max_sessions ≡ max_sessions
    fits : len s.store + s.cleared ≤ max_sessions + (creators - 1)

  length-remove :
      (id : ℕ) (principal : String) (s : SessionStore x)
      → (len (remove id principal s).1 ≤ len s)
        × ((remove id principal s).1.max_sessions ≡ s.max_sessions)
  unfolding remove len
  length-remove id principal s =
      elim (get id principal s)
        as (λ o.
          let s' =
            (elim o as (λ _. Bool × SessionStore x) [
              | none ↦ (false, s)
              | some _ ↦ (true, record s { sessions = erase id s.sessions })
            ]).1 in
          (length s'.sessions ≤ length s.sessions) × (s'.max_sessions ≡ s.max_sessions)) [
            | none ↦ (omega arith, refl)
            | some _ ↦ (length-erase-le id s.sessions, refl)
          ]

  Turn-IsFitting :
      {max_sessions creators : ℕ} (s s' : Creation x)
      → Turn creators s s'
      → IsFitting max_sessions creators s
      → IsFitting max_sessions creators s'
  unfolding has_room len insert_entry reap_expired
  Turn-IsFitting s s' (tests room below e) h =
      subst (IsFitting _ _) (sym e)
        (record { capacity = h.capacity; fits = ground (arith, room, h.capacity, h.fits) })
  Turn-IsFitting s s' (inserts id entry le e) h = subst (IsFitting _ _) (sym e) (record {
    capacity = h.capacity;
    fits = omega (arith, length-insert-le id s.store.next_ref s.store.sessions, h.fits);
  })
  Turn-IsFitting s s' (removes id principal e) h =
      let (le, same) = length-remove id principal s.store in
      subst (IsFitting _ _) (sym e)
        (record { capacity = same ∙ h.capacity; fits = omega (arith, le, h.fits) })
  Turn-IsFitting s s' (reaps now e) h = subst (IsFitting _ _) (sym e) (record {
    capacity = h.capacity;
    fits = omega (
      arith,
      length-remove_all (expired_ids now s.store.heap s.store.sessions) s.store.sessions,
      h.fits,
    );
  })

  Turns-IsFitting :
      {max_sessions creators : ℕ} {s s' : Creation x}
      → Turns creators s s'
      → IsFitting max_sessions creators s
      → IsFitting max_sessions creators s'
  Turns-IsFitting stays h = h
  Turns-IsFitting (follows before turn) h = Turn-IsFitting _ _ turn (Turns-IsFitting before h)

  -- From the empty store, with at most `creators` requests between the test and the insertion of
  -- `create` at a time, and any removals and reapings in between, the store holds at most `creators
  -- - 1` sessions more than its capacity.
  pub len-le_capacity :
      (max_sessions creators : ℕ) {s : Creation x}
      → Turns creators (record { store = new max_sessions; cleared = 0 }) s
      → len s.store ≤ max_sessions + (creators - 1)
  unfolding new len
  len-le_capacity max_sessions creators turns =
      let h =
        Turns-IsFitting {max_sessions = max_sessions} turns
          (record { capacity = refl; fits = omega arith }) in
      omega (arith, h.fits)
