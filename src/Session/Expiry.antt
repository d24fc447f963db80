-- ===== src/Session/Expiry.antt =====
-- What a principal sees after `reap_expired` (src/session.rs).
use monty_server.Common.{
  ℕ, ◌≡◌, refl, ◌∙◌, ap, sym, String, Option, none, some, List, arith, nat_key, leb, lookup, retain,
  kept, lookup-retain, IsDistinct, if◌then◌else◌,
}
use monty_server.External.{Types}
use monty_server.Session.{SessionEntry, Cell, SessionStore, reap_expired}
use monty_server.Session.Reaping.{survives, is_good, reap_expired-retain}
use monty_server.Session.Isolation.{seen, seen-eq, behind, entry_for}

module _ {x : Types} where
  -- An entry, unless it has expired.
  abbrev pub unexpired : (now : ℕ) → Option (SessionEntry x) → Option (SessionEntry x)
  unexpired now none = none
  unexpired now (some e) = if leb e.expires_at now then none else some e

  behind-kept :
      (now : ℕ) (principal : String) (heap : List (ℕ × Cell x)) (id : ℕ) (o : Option ℕ)
      → behind principal heap (kept (survives now heap) id o)
        ≡ unexpired now (behind principal heap o)
  unfolding behind entry_for survives is_good
  behind-kept now principal heap id none = refl
  behind-kept now principal heap id (some ref) = ground (arith, lookup ref heap)

  pub seen-reap_expired :
      (now : ℕ) (s : SessionStore x)
      → IsDistinct s.sessions
      → (principal : String) (id : ℕ)
      → seen principal id (reap_expired now s).1 ≡ unexpired now (seen principal id s)
  seen-reap_expired now s distinct principal id =
      ap (seen principal id) (reap_expired-retain now s distinct).0
      ∙ seen-eq principal id (record s { sessions = retain (survives now s.heap) s.sessions })
      ∙ ap (behind principal s.heap) (lookup-retain (survives now s.heap) id s.sessions distinct)
      ∙ behind-kept now principal s.heap id (lookup id s.sessions)
      ∙ ap (unexpired now) (sym (seen-eq principal id s))
