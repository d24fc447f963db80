-- ===== src/Server/Concurrent/Others.antt =====
-- Steps of the server that are not of a principal's requests (src/api/mod.rs), and the requests that
-- are not answered.
use monty_server.Common.{
  ℕ, ◌≤◌, ◌≡◌, refl, sym, subst, ap, String, none, List, [], ◌∷◌, ◌++◌, All, nat_key, lookup, ◌∙◌,
}
use monty_server.Config.{Config}
use monty_server.External.{Types, Externals}
use monty_server.Session.{SessionStore}
use monty_server.Api.Sessions.Flights.Single.{Steps-IsSound, empty-IsSound}
use monty_server.Api.Sessions.Flights.Owned.{Steps-KeepsOwners}
use monty_server.Server.{sweep}
use monty_server.Server.Tasks.{Job}
use monty_server.Server.Concurrent.{
  System, Step, answers_at_once, arrives, acquires, ends, answers, gives_up, disconnects, sweeps,
  Steps, started,
}
use monty_server.Server.Concurrent as Concurrent
use monty_server.Server.Concurrent.Refines.{Refines, Step-views}
use monty_server.Server.Concurrent.Unseen.{IsNotOf, IsNotOf-mono, IsOthersRoute, arrived-ArrivesFor}

module _ {A : Type 0} {P Q : A → Type 0} where
  All-mono : (xs : List A) → ((a : A) → P a → Q a) → All P xs → All Q xs
  All-mono [] h all = tt
  All-mono (a ∷ xs) h all = (h a all.0, All-mono xs h all.1)

module _ {A : Type 0} (P : A → Type 0) where
  -- all but the one in the middle
  pub All-without :
      (before after : List A) (a : A)
      → All P (before ++ (a ∷ after))
      → P a × All P (before ++ after)
  All-without [] after a all = all
  All-without (b ∷ before) after a all =
      let (here, rest) = All-without before after a all.1 in (here, (all.0, rest))

module _ {x : Types} {Address : Type 0} where
  -- None of the requests that are not answered is on behalf of `p`.
  abbrev pub NonePending : String → System x Address → Type 0
  NonePending p s = All (λ (j : ℕ × Job x). IsNotOf p s.server.sessions j.1) s.jobs

module _ {x : Types} (m : Externals x) (show : ℕ → String) (version : String)
    {Address : Type 0} where
  -- A step that is not of a request of `p`. What it stores gets a uuid that is not in use, and no
  -- reaping is after `latest`.
  abbrev pub IsOthers :
      (p : String) → (latest : ℕ) → {s s' : System x Address} → Step m show version s s' → Type 0
  IsOthers p latest {s} (answers_at_once moment route answer u got e) =
      IsOthersRoute m show version p route s.server
  IsOthers p latest {s} (arrives moment route job u got e) =
      IsOthersRoute m show version p route s.server
  IsOthers p latest (acquires request left before after w q e) = Unit
  IsOthers p latest (ends request before after r e) = Unit
  IsOthers p latest {s} (answers request job before after at answer sessions l o got e) =
      lookup at.fresh_id s.server.sessions.sessions ≡ none
  IsOthers p latest (gives_up request job before after ahead behind l w e) = Unit
  IsOthers p latest (disconnects request job before after l w e) = Unit
  IsOthers p latest (sweeps tick e) = tick.reaped_at ≤ latest

  pub data OthersSteps (p : String) (latest : ℕ) (s : System x Address)
      : System x Address → Type 0 where
    stays : OthersSteps p latest s s
    follows :
        {u s' : System x Address}
        → OthersSteps p latest s u
        → (step : Step m show version u s') → IsOthers p latest step
        → OthersSteps p latest s s'

  pub steps_of :
      {p : String} {latest : ℕ} {s u v : System x Address}
      → Steps m show version s u
      → OthersSteps p latest u v
      → Steps m show version s v
  steps_of before stays = before
  steps_of before (follows after step others) = Concurrent.follows (steps_of before after) step

  module _ (config : Config Address) (p : String) (latest : ℕ) where
    Holds : SessionStore x → ℕ × Job x → Type 0
    Holds sessions (request, job) = IsNotOf p sessions job

    -- The jobs after a step that takes none, takes one away or adds one.
    same_jobs :
        (s s' u : System x Address)
        → s' ≡ u
        → u.jobs ≡ s.jobs
        → All (Holds s'.server.sessions) s.jobs
        → All (Holds s'.server.sessions) s'.jobs
    same_jobs s s' u e same old =
        subst (All (Holds s'.server.sessions))
          (sym (ap (λ (v : System x Address). v.jobs) e ∙ same)) old

    fewer_jobs :
        (s s' u : System x Address) (before after : List (ℕ × Job x)) (j : ℕ × Job x)
        → s' ≡ u
        → s.jobs ≡ before ++ (j ∷ after)
        → u.jobs ≡ before ++ after
        → All (Holds s'.server.sessions) s.jobs
        → All (Holds s'.server.sessions) s'.jobs
    fewer_jobs s s' u before after j e listed left old =
        subst (All (Holds s'.server.sessions))
          (sym (ap (λ (v : System x Address). v.jobs) e ∙ left))
          (All-without (Holds s'.server.sessions) before after j
            (subst (All (Holds s'.server.sessions)) listed old)).1

    -- The jobs after a step, if the old ones are still not on behalf of `p`.
    Step-jobs :
        (s s' : System x Address) (step : Step m show version s s')
        → IsOthers p latest step
        → All (Holds s'.server.sessions) s.jobs
        → All (Holds s'.server.sessions) s'.jobs
    unfolding sweep Holds
    Step-jobs s s' (answers_at_once moment route answer u got e) other old =
        same_jobs s s' _ e refl old
    Step-jobs s s' (arrives moment route job u got e) other old =
        let new = (arrived-ArrivesFor m show version p moment route s.server other got).1 in
        subst (All (Holds s'.server.sessions)) (sym (ap (λ (v : System x Address). v.jobs) e))
          (subst (λ (v : System x Address). IsNotOf p v.server.sessions job) (sym e) new, old)
    Step-jobs s s' (acquires request left before after w q e) other old =
        same_jobs s s' _ e refl old
    Step-jobs s s' (ends request before after r e) other old = same_jobs s s' _ e refl old
    Step-jobs s s' (answers request job before after at answer sessions listed o got e) other old =
        fewer_jobs s s' _ before after (request, job) e listed refl old
    Step-jobs s s' (gives_up request job before after ahead behind listed w e) other old =
        fewer_jobs s s' _ before after (request, job) e listed refl old
    Step-jobs s s' (disconnects request job before after listed w e) other old =
        fewer_jobs s s' _ before after (request, job) e listed refl old
    Step-jobs s s' (sweeps tick e) other old = same_jobs s s' _ e refl old

    pub Step-NonePending :
        (s s' : System x Address) (step : Step m show version s s')
        → IsOthers p latest step
        → Refines config s
        → NonePending p s
        → NonePending p s'
    unfolding Holds
    Step-NonePending s s' step other h none_pending =
        let sound = Steps-IsSound h.flown (empty-IsSound config.sessions.max_sessions) in
        Step-jobs s s' step other (
          All-mono s.jobs
            (λ (j : ℕ × Job x).
              IsNotOf-mono p s.server.sessions s'.server.sessions j.1
                (Steps-KeepsOwners p sound (Step-views m show version config s s' step h)))
            none_pending)
