-- ===== src/Session/Reaping.antt =====
-- Which sessions `reap_expired` (src/session.rs) evicts.
use monty_server.Common.{
  ℕ, ◌+◌, ◌≡◌, refl, Bool, false, not, ◌||◌, List, [], ◌∷◌, arith, length, nat_key, lookup, erase,
  retain, IsDistinct, Option, none, some, ltb, ◌&&◌, true, ◌==◌, ==_iff, ap,
}
use monty_server.External.{Types}
use monty_server.Session.{
  Cell, SessionStore, is_expired, expired_ids, remove_all, reap_expired, len,
}

mem : ℕ → List ℕ → Bool
mem k [] = false
mem k (id ∷ ids) = (id == k) || mem k ids

erase_absent : (k : ℕ) (m : List (ℕ × ℕ)) → lookup k m ≡ none → erase k m ≡ m
unfolding lookup erase
erase_absent k [] h = refl
erase_absent k ((j, r) ∷ m) h = ground (arith, erase_absent k m)

remove_all_cons :
    (ids : List ℕ) (id ref : ℕ) (m : List (ℕ × ℕ))
    → mem id ids ≡ false
    → remove_all ids ((id, ref) ∷ m) ≡ (id, ref) ∷ remove_all ids m
unfolding mem remove_all erase
remove_all_cons [] id ref m h = refl
remove_all_cons (i ∷ ids) id ref m h =
    ground (arith, remove_all_cons ids id ref (erase i m), ==_iff i id, ==_iff id i)

module _ {x : Types} (now : ℕ) (heap : List (ℕ × Cell x)) where
  -- The session in a cell is still good at `now`: its time is not up, and no panic has poisoned it.
  unfoldable pub is_good : Option (Cell x) → Bool
  is_good none = true
  is_good (some c) = not c.poisoned && ltb now c.entry.expires_at

  unfoldable pub survives : ℕ → ℕ → Bool
  unfolding is_good
  survives id ref = is_good (lookup ref heap)

  is_good-is_expired : (o : Option (Cell x)) → is_good o ≡ not (is_expired now o)
  unfolding is_good is_expired
  is_good-is_expired none = refl
  is_good-is_expired (some c) = ground arith

  mem-expired_ids :
      (k : ℕ) (m : List (ℕ × ℕ)) → lookup k m ≡ none → mem k (expired_ids now heap m) ≡ false
  unfolding mem expired_ids lookup
  mem-expired_ids k [] h = refl
  mem-expired_ids k ((id, ref) ∷ m) h = ground (arith, mem-expired_ids k m)

  remove_all-expired_ids :
      (m : List (ℕ × ℕ)) → IsDistinct m → remove_all (expired_ids now heap m) m ≡ retain survives m
  unfolding remove_all expired_ids retain erase survives
  remove_all-expired_ids [] h = refl
  remove_all-expired_ids ((id, ref) ∷ m) h = ground (
    arith,
    remove_all-expired_ids m h.1,
    remove_all_cons (expired_ids now heap m) id ref m,
    mem-expired_ids id m h.0,
    erase_absent id m h.0,
    ==_iff id id,
    is_good-is_expired (lookup ref heap),
  )

  length-expired_ids :
      (m : List (ℕ × ℕ)) → length (expired_ids now heap m) + length (retain survives m) ≡ length m
  unfolding expired_ids retain survives
  length-expired_ids [] = refl
  length-expired_ids ((id, ref) ∷ m) =
      ground (arith, length-expired_ids m, is_good-is_expired (lookup ref heap))

-- In a store that holds no id twice, `reap_expired` keeps exactly the sessions that no panic has
-- poisoned and that expire after `now`, with those that refer to no cell, and leaves the rest of
-- the store as it is; and the number that it returns is that of the sessions which it removed.
pub reap_expired-retain :
    {x : Types} (now : ℕ) (s : SessionStore x)
    → IsDistinct s.sessions
    → ((reap_expired now s).1 ≡ record s { sessions = retain (survives now s.heap) s.sessions })
      × ((reap_expired now s).0 + len (reap_expired now s).1 ≡ len s)
unfolding reap_expired len
reap_expired-retain now s h =
    let kept = remove_all-expired_ids now s.heap s.sessions h in
    (
      ap (λ m. record s { sessions = m }) kept,
      ground (arith, kept, length-expired_ids now s.heap s.sessions),
    )
