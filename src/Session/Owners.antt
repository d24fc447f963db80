-- ===== src/Session/Owners.antt =====
-- Who sees a session (`create`, `get` and `remove` in src/session.rs).
use monty_server.Common.{
  subst, Bool-cases, inl, inr, lookup-insert, ℕ, ◌≡◌, ◌≢◌, refl, true, false, List, arith, nat_key,
  lookup, insert, lookup-insert_self, lookup-insert_ne, Option, none, some, ◌==◌, ◌∙◌, sym, ap,
  String, str_eq, eq_iff, if◌then◌else◌,
}
use monty_server.Tracker.{Tracker}
use monty_server.Engine.{SessionStep}
use monty_server.External.{Types}
use monty_server.Session.{
  SessionEntry, Cell, SessionStore, create, has_room, insert_entry, new_entry, find, owns, get,
}

module _ {x : Types} where
  -- `get`, from what the map has under the id
  visible : String → List (ℕ × Cell x) → Option ℕ → Option ℕ
  visible principal heap none = none
  visible principal heap (some ref) = if owns principal (lookup ref heap) then some ref else none

  get-eq :
      (id : ℕ) (principal : String) (s : SessionStore x)
      → get id principal s ≡ visible principal s.heap (lookup id s.sessions)
  unfolding get find visible
  get-eq id principal s = ground (arith, lookup id s.sessions)

  visible-eq-some :
      (principal : String) (heap : List (ℕ × Cell x)) (o : Option ℕ) {ref : ℕ}
      → visible principal heap o ≡ some ref
      → (c : Cell x) × (o ≡ some ref) × (lookup ref heap ≡ some c) × (c.entry.principal ≡ principal)
  unfolding visible owns
  visible-eq-some principal heap none h = cc
  visible-eq-some principal heap (some r) {ref} h = go (lookup r heap) refl h
    where
      go :
          (o : Option (Cell x))
          → lookup r heap ≡ o
          → (if owns principal o then some r else none) ≡ some ref
          → (c : Cell x) × (some r ≡ some ref)
            × (lookup ref heap ≡ some c)
            × (c.entry.principal ≡ principal)
      go none e k = cc
      go (some c) e k =
          let same : r ≡ ref = ground (arith, k, c.poisoned) in
          (
            c,
            ap some same,
            subst (λ i. lookup i heap ≡ some c) same e,
            ground (arith, eq_iff c.entry.principal principal, k, c.poisoned),
          )

  -- If `get` finds a session, its entry is in the store under that id and belongs to the principal
  -- that asks.
  pub get-principal :
      (id : ℕ) (principal : String) (s : SessionStore x) {ref : ℕ}
      → get id principal s ≡ some ref
      → (c : Cell x) × (lookup id s.sessions ≡ some ref)
        × (lookup ref s.heap ≡ some c)
        × (c.entry.principal ≡ principal)
  unfolding get find owns
  get-principal id principal s h =
      visible-eq-some principal s.heap (lookup id s.sessions) (sym (get-eq id principal s) ∙ h)

  visible-insert :
      (principal : String) (heap : List (ℕ × Cell x)) (next : ℕ) (c : Cell x) (o : Option ℕ)
      → o ≢ some next
      → visible principal (insert next c heap) o ≡ visible principal heap o
  unfolding visible
  visible-insert principal heap next c none fresh = refl
  visible-insert principal heap next c (some ref) fresh =
      ap (λ cell. if owns principal cell then some ref else none)
        (lookup-insert_ne next ref c heap (λ e. fresh (ap some (sym e))))

  pub created :
      (caller : String) (ttl : ℕ) (t : Tracker) (step : SessionStep x) (id now : ℕ)
      (s : SessionStore x)
      → has_room s ≡ true
      → (create caller ttl t step id now s).1 ≡ insert_entry id (new_entry caller ttl t step now) s
  unfolding create
  created caller ttl t step id now s room = rw (create, room)

  get-insert_entry :
      (e : SessionEntry x) (id : ℕ) (s : SessionStore x)
      → ((k : ℕ) → lookup k s.sessions ≢ some s.next_ref)
      → (j : ℕ) (principal : String)
      → get j principal (insert_entry id e s) ≡ (
          if id == j
          then (if str_eq e.principal principal then some s.next_ref else none)
          else get j principal s)
  unfolding insert_entry visible owns
  get-insert_entry e id s unused j principal = elim (Bool-cases (id == j)) [
    | inl same ↦ ground (
      arith,
      get-eq j principal (insert_entry id e s),
      lookup-insert id j s.next_ref s.sessions,
      lookup-insert_self s.next_ref (record { entry = e; poisoned = false }) s.heap,
      same,
    )
    | inr other ↦ ground (
      arith,
      get-eq j principal (insert_entry id e s),
      get-eq j principal s,
      lookup-insert id j s.next_ref s.sessions,
      visible-insert principal s.heap s.next_ref (record { entry = e; poisoned = false })
          (lookup j s.sessions) (unused j),
      other,
    )
  ]

  -- If there is room, and no session refers to the next cell yet, then after `create` its caller's
  -- name gets the new session, no other principal does, and under every other id every principal
  -- gets what it got before.
  pub get-create :
      (caller : String) (ttl : ℕ) (t : Tracker) (step : SessionStep x) (id now : ℕ)
      (s : SessionStore x)
      → has_room s ≡ true
      → ((k : ℕ) → lookup k s.sessions ≢ some s.next_ref)
      → (j : ℕ) (principal : String)
      → get j principal (create caller ttl t step id now s).1 ≡ (
          if id == j
          then (if str_eq caller principal then some s.next_ref else none)
          else get j principal s)
  unfolding new_entry
  get-create caller ttl t step id now s room unused j principal =
      ap (get j principal) (created caller ttl t step id now s room)
      ∙ get-insert_entry (new_entry caller ttl t step now) id s unused j principal
