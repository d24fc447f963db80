-- ===== src/Server/Concurrent/Views.antt =====
-- What the sessions (src/session.rs) see of the requests that are in flight: the resumes.
use monty_server.Common.{
  ℕ, ◌+◌, ◌≡◌, refl, true, false, List, [], ◌∷◌, ◌++◌, arith, ◌==◌, ==_iff, subst,
}
use monty_server.External.{Types}
use monty_server.Api.Sessions.Flights.{count, land}
use monty_server.Api.Sessions.Flights as Flights
use monty_server.Server.Tasks.{Job, runs, compiles, creates, resumes}
use monty_server.Server.Concurrent.{System}

pub count-append : (j : ℕ) (xs ys : List ℕ) → count j (xs ++ ys) ≡ count j xs + count j ys
unfolding count
count-append j [] ys = omega arith
count-append j (x ∷ xs) ys = ground (arith, count-append j xs ys)

pub count-middle :
    (j r : ℕ) (xs ys : List ℕ)
    → count j (xs ++ (r ∷ ys)) ≡ (elim (r == j) [ true ↦ 1 | false ↦ 0 ]) + count j (xs ++ ys)
unfolding count
count-middle j r xs ys = ground (arith, count-append j xs (r ∷ ys), count-append j xs ys)

pub count-middle_self : (r : ℕ) (xs ys : List ℕ) → count r (xs ++ (r ∷ ys)) ≡ 1 + count r (xs ++ ys)
count-middle_self r xs ys = ground (arith, count-middle r r xs ys, ==_iff r r)

-- The only flight on a session is the one that lands.
pub land-middle :
    (r : ℕ) (xs ys : List ℕ) → count r (xs ++ ys) ≡ 0 → land r (xs ++ (r ∷ ys)) ≡ xs ++ ys
unfolding count land
land-middle r [] ys none_else = ground (arith, ==_iff r r)
land-middle r (x ∷ xs) ys none_else = ground (arith, land-middle r xs ys)

module _ {x : Types} where
  -- the flight of a job, on top of others
  unfoldable pub flown_by : Job x → List ℕ → List ℕ
  flown_by (resumes id ref input progress t) flights = ref ∷ flights
  flown_by (runs limits spec) flights = flights
  flown_by (compiles request) flights = flights
  flown_by (creates ttl caller limits spec) flights = flights

  -- the references whose resume is in flight
  unfoldable pub flights_of : List (ℕ × Job x) → List ℕ
  unfolding flown_by
  flights_of [] = []
  flights_of ((request, job) ∷ jobs) = flown_by job (flights_of jobs)

  -- the flights after the end of a job
  unfoldable pub lands : Job x → List ℕ → List ℕ
  lands (resumes id ref input progress t) flights = land ref flights
  lands (runs limits spec) flights = flights
  lands (compiles request) flights = flights
  lands (creates ttl caller limits spec) flights = flights

  -- Of a job that resumes a session: the number of flights on that session.
  unfoldable pub Flies : ℕ → Job x → List ℕ → Type 0
  Flies n (resumes id ref input progress t) flights = count ref flights ≡ n
  Flies n (runs limits spec) flights = Unit
  Flies n (compiles request) flights = Unit
  Flies n (creates ttl caller limits spec) flights = Unit

  flown_by-append : (job : Job x) (xs ys : List ℕ) → flown_by job (xs ++ ys) ≡ flown_by job xs ++ ys
  unfolding flown_by
  flown_by-append (resumes id ref input progress t) xs ys = refl
  flown_by-append (runs limits spec) xs ys = refl
  flown_by-append (compiles request) xs ys = refl
  flown_by-append (creates ttl caller limits spec) xs ys = refl

  pub flights_of-append :
      (xs ys : List (ℕ × Job x)) → flights_of (xs ++ ys) ≡ flights_of xs ++ flights_of ys
  unfolding flights_of
  flights_of-append [] ys = refl
  flights_of-append ((request, job) ∷ xs) ys =
      rw (flights_of-append xs ys) (flown_by-append job (flights_of xs) (flights_of ys))

  lands-flown_by :
      (job : Job x) (xs ys : List ℕ)
      → Flies 1 job (xs ++ flown_by job ys)
      → lands job (xs ++ flown_by job ys) ≡ xs ++ ys
  unfolding lands Flies flown_by
  lands-flown_by (resumes id ref input progress t) xs ys one =
      land-middle ref xs ys (omega (arith, one, count-middle_self ref xs ys))
  lands-flown_by (runs limits spec) xs ys one = refl
  lands-flown_by (compiles r) xs ys one = refl
  lands-flown_by (creates ttl caller limits spec) xs ys one = refl

  -- The flights with that of one job between those of others.
  pub flights_of-middle :
      (request : ℕ) (job : Job x) (before after : List (ℕ × Job x))
      → flights_of (before ++ ((request, job) ∷ after))
        ≡ flights_of before ++ flown_by job (flights_of after)
  unfolding flights_of
  flights_of-middle request job before after = flights_of-append before ((request, job) ∷ after)

  -- A job that ends leaves the flights of the others.
  pub lands-middle :
      (request : ℕ) (job : Job x) (before after : List (ℕ × Job x))
      → Flies 1 job (flights_of (before ++ ((request, job) ∷ after)))
      → lands job (flights_of (before ++ ((request, job) ∷ after))) ≡ flights_of (before ++ after)
  lands-middle request job before after one =
      rw (flights_of-middle request job before after, flights_of-append before after)
        (lands-flown_by job (flights_of before) (flights_of after)
          (subst (Flies 1 job) (flights_of-middle request job before after) one))

  -- the sessions and their flights
  abbrev pub sessions_view : {Address : Type 0} → System x Address → Flights.System x
  sessions_view s = record { store = s.server.sessions; flights = flights_of s.jobs }
