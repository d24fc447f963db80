-- ===== src/Session/Links.antt =====
-- How the operations of src/session.rs keep the map and its references in order.
use monty_server.Common.{
  IsDistinct, insert-IsDistinct, erase-IsDistinct, ℕ, ◌<◌, ◌≡◌, String, some, List, [], ◌∷◌, arith,
  nat_key, lookup, erase, lookup-insert, lookup-erase, Option-cases, inl, inr,
}
use monty_server.External.{Types}
use monty_server.Session.{
  SessionEntry, SessionStore, get, remove, insert_entry, remove_all, reap_expired, expired_ids,
  update,
}

module _ {x : Types} where
  -- No id stands twice in the map, and every reference in it is older than the next one.
  pub record IsLinked (s : SessionStore x) : Type 0 where
    pub distinct : IsDistinct s.sessions
    pub older : (id ref : ℕ) → lookup id s.sessions ≡ some ref → ref < s.next_ref

  pub insert_entry-IsLinked :
      (id : ℕ) (e : SessionEntry x) (s : SessionStore x)
      → IsLinked s
      → IsLinked (insert_entry id e s)
  unfolding insert_entry
  insert_entry-IsLinked id e s h = record {
    distinct = insert-IsDistinct id s.next_ref s.sessions h.distinct;
    older = λ j ref found.
        ground (arith, lookup-insert id j s.next_ref s.sessions, found, h.older j ref);
  }

  erase-IsLinked :
      (id : ℕ) (s : SessionStore x)
      → IsLinked s
      → IsLinked (record s { sessions = erase id s.sessions })
  erase-IsLinked id s h = record {
    distinct = erase-IsDistinct id s.sessions h.distinct;
    older = λ j ref found. ground (arith, lookup-erase id j s.sessions, found, h.older j ref);
  }

  pub remove-IsLinked :
      (id : ℕ) (principal : String) (s : SessionStore x)
      → IsLinked s
      → IsLinked (remove id principal s).1
  unfolding remove
  remove-IsLinked id principal s h = elim (Option-cases (get id principal s)) [
    | inl absent ↦ rw (remove, absent) h
    | inr (ref, got) ↦ rw (remove, got) (erase-IsLinked id s h)
  ]

  remove_all-IsLinked :
      (ids : List ℕ) (s : SessionStore x)
      → IsLinked s
      → IsLinked (record s { sessions = remove_all ids s.sessions })
  unfolding remove_all
  remove_all-IsLinked [] s h = h
  remove_all-IsLinked (id ∷ ids) s h =
      remove_all-IsLinked ids (record s { sessions = erase id s.sessions }) (erase-IsLinked id s h)

  pub reap_expired-IsLinked :
      (now : ℕ) (s : SessionStore x) → IsLinked s → IsLinked (reap_expired now s).1
  unfolding reap_expired
  reap_expired-IsLinked now s h = remove_all-IsLinked (expired_ids now s.heap s.sessions) s h

  pub update-IsLinked :
      (ref : ℕ) (f : SessionEntry x → SessionEntry x) (s : SessionStore x)
      → IsLinked s
      → IsLinked (update ref f s)
  unfolding update
  update-IsLinked ref f s h = elim (Option-cases (lookup ref s.heap)) [
    | inl absent ↦ rw (update, absent) h
    | inr (c, found) ↦ rw (update, found) (record { distinct = h.distinct; older = h.older })
  ]
