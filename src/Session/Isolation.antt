-- ===== src/Session/Isolation.antt =====
-- What one principal sees of the store (src/session.rs), while another uses it.
use mathlib.Core.Option
use monty_server.Common.{
  ℕ, ◌≡◌, ◌≢◌, refl, sym, ◌∙◌, ap, String, str_eq, eq_iff, false, Option, none, some, List, arith,
  nat_key, ◌==◌, ==_iff, if◌then◌else◌, lookup, insert, erase, lookup-insert, lookup-erase,
  lookup-insert_ne, Bool-cases, Option-cases, inl, inr,
}
use monty_server.External.{Types}
use monty_server.Session.{
  SessionEntry, Cell, SessionStore, owns, find, get, remove, insert_entry, update,
}
use monty_server.Session.Links.{IsLinked}
use monty_server.Session.Owners.{get-principal}

module _ {x : Types} where
  -- The entry that a principal gets under an id.
  unfoldable pub seen : String → (id : ℕ) → SessionStore x → Option (SessionEntry x)
  seen principal id s = elim (get id principal s) [
    | none ↦ none
    | some ref ↦ Option.map (λ (c : Cell x). c.entry) (lookup ref s.heap)
  ]

  unfoldable pub entry_for : String → Option (Cell x) → Option (SessionEntry x)
  entry_for principal none = none
  entry_for principal (some c) =
      if c.poisoned
      then none
      else (if str_eq c.entry.principal principal then some c.entry else none)

  unfoldable pub behind : String → List (ℕ × Cell x) → Option ℕ → Option (SessionEntry x)
  unfolding entry_for
  behind principal heap none = none
  behind principal heap (some ref) = entry_for principal (lookup ref heap)

  pub seen-eq :
      (principal : String) (id : ℕ) (s : SessionStore x)
      → seen principal id s ≡ behind principal s.heap (lookup id s.sessions)
  unfolding seen get find owns behind entry_for
  seen-eq principal id s = ground (arith, lookup id s.sessions)

  entry_for-other :
      (caller principal : String) (c : Cell x)
      → caller ≢ principal
      → c.entry.principal ≡ caller
      → entry_for principal (some c) ≡ none
  unfolding entry_for
  entry_for-other caller principal c other same =
      ground (arith, eq_iff c.entry.principal principal, other, same)

  behind-insert :
      (caller principal : String) (heap : List (ℕ × Cell x)) (ref : ℕ) (c c' : Cell x)
      (o : Option ℕ)
      → caller ≢ principal
      → lookup ref heap ≡ some c
      → c.entry.principal ≡ caller
      → c'.entry.principal ≡ caller
      → behind principal (insert ref c' heap) o ≡ behind principal heap o
  unfolding behind
  behind-insert caller principal heap ref c c' none other found a b = refl
  behind-insert caller principal heap ref c c' (some r) other found a b =
      elim (Bool-cases (ref == r)) [
        | inl same ↦ ground (
          arith,
          lookup-insert ref r c' heap,
          same,
          ==_iff ref r,
          found,
          entry_for-other caller principal c other a,
          entry_for-other caller principal c' other b,
        )
        | inr differ ↦ ground (arith, lookup-insert ref r c' heap, differ)
      ]

  -- A change of an entry of one principal is not seen by another.
  pub seen-update :
      (caller principal : String) (ref : ℕ) (f : SessionEntry x → SessionEntry x)
      (s : SessionStore x) (c : Cell x)
      → caller ≢ principal
      → lookup ref s.heap ≡ some c
      → c.entry.principal ≡ caller
      → (f c.entry).principal ≡ caller
      → (id : ℕ) → seen principal id (update ref f s) ≡ seen principal id s
  unfolding update
  seen-update caller principal ref f s c other found a b id =
      rw (update, found)
        (seen-eq principal id
            (record s { heap = insert ref (record c { entry = f c.entry }) s.heap })
          ∙ behind-insert caller principal s.heap ref c (record c { entry = f c.entry })
              (lookup id s.sessions) other found a b
          ∙ sym (seen-eq principal id s))

  behind-other :
      (caller principal : String) (heap : List (ℕ × Cell x)) (ref : ℕ) (c : Cell x)
      → caller ≢ principal
      → lookup ref heap ≡ some c
      → c.entry.principal ≡ caller
      → behind principal heap (some ref) ≡ none
  unfolding behind
  behind-other caller principal heap ref c other found a =
      ap (entry_for principal) found ∙ entry_for-other caller principal c other a

  -- The removal of a session that its caller gets is not seen by another.
  seen-erase :
      (caller principal : String) (id : ℕ) (s : SessionStore x) {ref : ℕ}
      → caller ≢ principal
      → get id caller s ≡ some ref
      → (j : ℕ)
      → seen principal j (record s { sessions = erase id s.sessions }) ≡ seen principal j s
  unfolding behind
  seen-erase caller principal id s {ref} other got j =
      let (c, there, found, a) = get-principal id caller s got in
      elim (Bool-cases (id == j)) [
        | inl same ↦ ground (
          arith,
          seen-eq principal j s,
          seen-eq principal j (record s { sessions = erase id s.sessions }),
          lookup-erase id j s.sessions,
          same,
          ==_iff id j,
          there,
          behind-other caller principal s.heap ref c other found a,
        )
        | inr differ ↦ ground (
          arith,
          seen-eq principal j s,
          seen-eq principal j (record s { sessions = erase id s.sessions }),
          lookup-erase id j s.sessions,
          differ,
        )
      ]

  pub seen-remove :
      (caller principal : String) (id : ℕ) (s : SessionStore x)
      → caller ≢ principal
      → (j : ℕ) → seen principal j (remove id caller s).1 ≡ seen principal j s
  unfolding remove
  seen-remove caller principal id s other j = elim (Option-cases (get id caller s)) [
    | inl absent ↦ rw (remove, absent) refl
    | inr (ref, got) ↦ rw (remove, got) (seen-erase caller principal id s other got j)
  ]

  behind-insert_next :
      (principal : String) (s : SessionStore x) (c : Cell x) (id : ℕ) (o : Option ℕ)
      → IsLinked s
      → lookup id s.sessions ≡ o
      → behind principal (insert s.next_ref c s.heap) o ≡ behind principal s.heap o
  unfolding behind
  behind-insert_next principal s c id none h e = refl
  behind-insert_next principal s c id (some ref) h e = ap (entry_for principal) (
      lookup-insert_ne s.next_ref ref c s.heap
        (λ same. absurd (omega (arith, h.older id ref e, same))))

  -- A new session under an unused id is seen by its principal only.
  pub seen-insert_entry :
      (e : SessionEntry x) (id : ℕ) (principal : String) (s : SessionStore x)
      → e.principal ≢ principal
      → IsLinked s
      → lookup id s.sessions ≡ none
      → (j : ℕ) → seen principal j (insert_entry id e s) ≡ seen principal j s
  unfolding insert_entry behind
  seen-insert_entry e id principal s other h unused j =
      let c : Cell x = record { entry = e; poisoned = false } in
      elim (Bool-cases (id == j)) [
        | inl same ↦ ground (
          arith,
          seen-eq principal j s,
          seen-eq principal j (insert_entry id e s),
          lookup-insert id j s.next_ref s.sessions,
          lookup-insert s.next_ref s.next_ref c s.heap,
          same,
          ==_iff id j,
          ==_iff s.next_ref s.next_ref,
          unused,
          entry_for-other e.principal principal c other refl,
        )
        | inr differ ↦ ground (
          arith,
          seen-eq principal j s,
          seen-eq principal j (insert_entry id e s),
          lookup-insert id j s.next_ref s.sessions,
          behind-insert_next principal s c j (lookup j s.sessions) h refl,
          differ,
        )
      ]
