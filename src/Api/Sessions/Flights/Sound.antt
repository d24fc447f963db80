-- ===== src/Api/Sessions/Flights/Sound.antt =====
-- The invariant of the entries and the resumes in flight between two steps (src/api/sessions.rs).
use monty_server.Common.{
  ℕ, zero, suc, ◌≤◌, ◌≡◌, refl, Option, none, some, List, arith, nat_key, lookup, insert,
  lookup-insert_self, lookup-insert_ne, ◌==◌, ==_iff, ◌≢◌, Bool-cases, inl, inr, subst, sym,
}
use monty_server.External.{Types, RunProgress}
use monty_server.Session.{SessionEntry, Cell, update}
use monty_server.Session.Entries.{IsConsistent, IsBusy}
use monty_server.Api.Sessions.Flights.{System, count}
use monty_server.Api.Sessions.Flights.Acquired.{update-heap}

module _ {x : Types} where
  -- Of a cell and the number of resumes in flight on it: at most one, and then it is busy.
  unfoldable pub IsFlown : ℕ → Option (Cell x) → Type 0
  IsFlown n none = n ≡ 0
  IsFlown n (some c) = IsConsistent c.entry × (n ≤ 1) × (n ≡ 1 → IsBusy c.entry)

  -- every cell, and no cell stands where the next one comes
  pub record IsSoundAt (heap : List (ℕ × Cell x)) (next : ℕ) (flights : List ℕ) : Type 0 where
    pub flown : (ref : ℕ) → IsFlown (count ref flights) (lookup ref heap)
    pub fresh : (ref : ℕ) → next ≤ ref → lookup ref heap ≡ none

  abbrev pub IsSound : System x → Type 0
  IsSound s = IsSoundAt s.store.heap s.store.next_ref s.flights

  pub at_insert :
      (P : Option (Cell x) → Type 0) (k j : ℕ) (c : Cell x) (heap : List (ℕ × Cell x))
      → (k ≡ j → P (some c))
      → (k ≢ j → P (lookup j heap))
      → P (lookup j (insert k c heap))
  at_insert P k j c heap here there = elim (Bool-cases (k == j)) [
    | inl same ↦
        let e = (==_iff k j).0 same in
        subst P
          (sym (subst (λ i. lookup i (insert k c heap) ≡ some c) e (lookup-insert_self k c heap)))
          (here e)
    | inr differ ↦
        let ne : k ≢ j = ground (arith, ==_iff k j) in
        subst P (sym (lookup-insert_ne k j c heap ne)) (there ne)
  ]

  -- A new cell.
  pub insert-IsSoundAt :
      {heap : List (ℕ × Cell x)} {next : ℕ} {flights : List ℕ} (c : Cell x)
      → IsSoundAt heap next flights
      → IsConsistent c.entry
      → IsSoundAt (insert next c heap) (suc next) flights
  unfolding IsFlown
  insert-IsSoundAt {heap} {next} {flights} c h good = record {
    flown = λ ref.
        at_insert (IsFlown (count ref flights)) next ref c heap
          (λ e.
            let none_flies : count next flights ≡ 0 =
              subst (IsFlown (count next flights)) (h.fresh next (omega arith)) (h.flown next) in
            subst (λ i. IsFlown (count i flights) (some c)) e
              (good, omega arith, λ one. absurd (omega arith)))
          (λ _. h.flown ref);
    fresh = λ ref le.
        at_insert (λ o. o ≡ none) next ref c heap (λ e. absurd (omega arith))
          (λ _. h.fresh ref (omega arith));
  }

  -- Another content of a cell, with another number of resumes in flight on it.
  pub update-IsSoundAt :
      {heap : List (ℕ × Cell x)} {next : ℕ} {flights flights' : List ℕ} (ref : ℕ) (c c' : Cell x)
      → lookup ref heap ≡ some c
      → IsSoundAt heap next flights
      → ((j : ℕ) → ref ≢ j → count j flights' ≡ count j flights)
      → IsFlown (count ref flights') (some c')
      → IsSoundAt (insert ref c' heap) next flights'
  update-IsSoundAt {heap} {next} {flights} {flights'} ref c c' found h others now = record {
    flown = λ j.
        at_insert (IsFlown (count j flights')) ref j c' heap
          (λ e. subst (λ i. IsFlown (count i flights') (some c')) e now)
          (λ ne. subst (λ n. IsFlown n (lookup j heap)) (sym (others j ne)) (h.flown j));
    fresh = λ j le.
        at_insert (λ o. o ≡ none) ref j c' heap (λ e. ground (arith, h.fresh j, found, e))
          (λ _. h.fresh j le);
  }

  pub idle-none_flies :
      (n : ℕ) (c : Cell x) {p : RunProgress x}
      → IsFlown n (some c)
      → c.entry.progress ≡ some p
      → n ≡ 0
  unfolding IsFlown
  idle-none_flies zero c h had = refl
  idle-none_flies (suc zero) c h had = cc ((h.2 refl).taken, had)
  idle-none_flies (suc (suc n)) c h had = absurd (omega (arith, h.1))

  pub flies-IsBusy :
      (n : ℕ) (c : Cell x)
      → IsFlown n (some c)
      → 1 ≤ n
      → (n ≡ 1) × IsBusy c.entry × IsConsistent c.entry
  unfolding IsFlown
  flies-IsBusy n c h le = let one : n ≡ 1 = omega (arith, h.1) in (one, h.2 one, h.0)

  pub update-IsSound :
      (ref : ℕ) (f : SessionEntry x → SessionEntry x) (s : System x) (c : Cell x)
      (flights' : List ℕ)
      → lookup ref s.store.heap ≡ some c
      → IsSound s
      → ((j : ℕ) → ref ≢ j → count j flights' ≡ count j s.flights)
      → IsFlown (count ref flights') (some (record c { entry = f c.entry }))
      → IsSound (record { store = update ref f s.store; flights = flights' })
  update-IsSound ref f s c flights' found sound others now =
      subst (λ u. IsSoundAt u.heap u.next_ref flights') (sym (update-heap ref f s.store c found))
        (update-IsSoundAt ref c _ found sound others now)
