-- ===== src/Server/Concurrent/Answerable.antt =====
-- Requests that are not answered yet (src/api/mod.rs): a permit comes, the task ends, the handler
-- answers.
use monty_server.Common.{
  ℕ, zero, suc, ◌+◌, ◌≤◌, ◌≡◌, refl, ap, List, [], ◌∷◌, ◌++◌, arith, ◌==◌, ==_iff, Bool-cases, inl,
  inr, length, String, Returns, some-Returns, map-Returns, some, ◌∙◌, nat_key,
}
use monty_server.Config.{Config}
use monty_server.External.{Types, Externals}
use monty_server.Engine.Settling.{OsBudget}
use monty_server.Engine.Returning.{resume_session-Returns}
use monty_server.Session.{SessionStore}
use monty_server.Api.Executions.{Gate, executions-le_max}
use monty_server.Api.Sessions.Flights.{count}
use monty_server.Api.Sessions.Handlers.{Surroundings, store_started, settle_resume}
use monty_server.Api.Sessions.Returning.{with_fuel, spawned-Returns, start_task-Returns}
use monty_server.Server.Requests.{Answer, answer_of, session, session_created}
use monty_server.Server.Tasks.{Job, runs, compiles, creates, resumes, closes}
use monty_server.Server.Concurrent.{
  System, acquires, ends, answers, Steps, stays, follows, started, IsOutside, with_gate,
}
use monty_server.Server.Concurrent.Views.{count-middle_self}
use monty_server.Server.Concurrent.Refines.{steps-Refines, steps_then}
use monty_server.Server.Concurrent.Numbered.{steps-IsNumbered, stands}

-- where an element stands
split_at :
    (r : ℕ) (xs : List ℕ)
    → 1 ≤ count r xs
    → (before : List ℕ) × (after : List ℕ) × (xs ≡ before ++ (r ∷ after))
unfolding count
split_at r [] h = absurd (omega arith)
split_at r (x ∷ xs) h = elim (Bool-cases (x == r)) [
  | inl same ↦ ([], xs, ap (λ y. y ∷ xs) ((==_iff x r).0 same))
  | inr differ ↦
      let (before, after, e) = split_at r xs (ground arith) in
      (x ∷ before, after, ap (λ ys. x ∷ ys) e)
]

module _ {x : Types} (m : Externals x) (show : ℕ → String) where
  -- The second half of a request returns.
  closes-Returns :
      (b : OsBudget m) (at : Surroundings) (job : Job x) (s : SessionStore x)
      → Returns (λ fuel. closes m show (with_fuel at fuel) job s)
  unfolding closes settle_resume store_started
  closes-Returns b at (runs limits spec) s = some-Returns _
  closes-Returns b at (compiles request) s = some-Returns _
  closes-Returns b at (creates ttl caller limits spec) s =
      map-Returns (λ r. (answer_of session_created r.0, r.1))
        (map-Returns (λ r. store_started m show at ttl caller r s)
          (spawned-Returns at.task_end (start_task-Returns m b at limits spec)))
  closes-Returns b at (resumes id ref input progress t) s =
      map-Returns (λ r. (answer_of session r.0, r.1))
        (map-Returns (λ r. settle_resume m at id ref r s)
          (spawned-Returns at.task_end (resume_session-Returns m b at.readings progress t input)))

module _ {x : Types} (m : Externals x) (show : ℕ → String) (version : String)
    {Address : Type 0} where
  -- Steps of the gate alone that bring the request past its task.
  record Passes (request : ℕ) (s : System x Address) : Type 0 where
    gate : Gate
    steps : Steps m show version s (record s { server = with_gate gate s.server })
    outside : IsOutside request gate

  passes_running :
      (request : ℕ) (s : System x Address)
      → stands request s.server.concurrency ≤ 1
      → 1 ≤ count request s.server.concurrency.running
      → Passes request s
  passes_running request s once holds =
      let gate = s.server.concurrency in
      let (before, after, e) = split_at request gate.running holds in
      record {
        gate = record gate { permits = suc gate.permits; running = before ++ after };
        steps = follows stays (ends request before after e refl);
        outside =
            let counted = ap (count request) e ∙ count-middle_self request before after in
            record {
              not_waiting = omega (arith, counted, once);
              not_running = omega (arith, counted, once);
            };
      }

  passes_waiting :
      (request left : ℕ) (s : System x Address)
      → s.server.concurrency.permits ≡ suc left
      → stands request s.server.concurrency ≤ 1
      → 1 ≤ count request s.server.concurrency.waiting
      → Passes request s
  unfolding count
  passes_waiting request left s free once waits =
      let gate = s.server.concurrency in
      let (before, after, e) = split_at request gate.waiting waits in
      let counted = ap (count request) e ∙ count-middle_self request before after in
      record {
        gate = record { permits = suc left; waiting = before ++ after; running = gate.running };
        steps =
            follows (follows stays (acquires request left before after e free refl))
              (ends request [] gate.running refl refl);
        outside = record {
          not_waiting = omega (arith, counted, once);
          not_running = omega (arith, counted, once);
        };
      }

  -- With all permits taken, another task ends first.
  passes_after :
      (request permits : ℕ) (running : List ℕ) (s : System x Address)
      → s.server.concurrency.permits ≡ permits
      → s.server.concurrency.running ≡ running
      → 1 ≤ permits + length running
      → stands request s.server.concurrency ≤ 1
      → 1 ≤ count request s.server.concurrency.waiting
      → Passes request s
  unfolding count
  passes_after request (suc left) running s free r some_left once waits =
      passes_waiting request left s free once waits
  passes_after request zero [] s free r some_left once waits = absurd (omega (arith, some_left))
  passes_after request zero (task ∷ tasks) s free r some_left once waits =
      let gate = s.server.concurrency in
      let freed = record s {
        server = with_gate (record gate { permits = suc gate.permits; running = tasks }) s.server;
      } in
      let fewer : count request tasks ≤ count request gate.running = rw r (ground arith) in
      let rest =
        passes_waiting request gate.permits freed refl (omega (arith, once, fewer)) waits in
      record {
        gate = rest.gate;
        steps = steps_then m show version (follows stays (ends task [] tasks r refl)) rest.steps;
        outside = rest.outside;
      }

  passes :
      (request : ℕ) (s : System x Address)
      → 1 ≤ s.server.concurrency.permits + length s.server.concurrency.running
      → stands request s.server.concurrency ≤ 1
      → Passes request s
  passes request s some_permit once =
      let gate = s.server.concurrency in
      split (count request gate.waiting) (count request gate.running) refl refl
    where
      split :
          (waiting running : ℕ)
          → count request s.server.concurrency.waiting ≡ waiting
          → count request s.server.concurrency.running ≡ running
          → Passes request s
      split (suc n) running w r =
          passes_after request s.server.concurrency.permits s.server.concurrency.running s refl refl
            some_permit once (omega (arith, w))
      split zero (suc n) w r = passes_running request s once (omega (arith, r))
      split zero zero w r = record {
        gate = s.server.concurrency;
        steps = stays;
        outside = record { not_waiting = w; not_running = r };
      }

  -- If `max_concurrency` is at least 1 and the program makes finitely many OS calls in a row: in
  -- every state that the server reaches with many requests at a time, for every request that is not
  -- answered and any readings and end of its task, there are further steps which answer that
  -- request and no other, with the answer and the sessions that its handler gives on the sessions
  -- of that state, on some fuel.
  pub pending-answered :
      (b : OsBudget m) (config : Config Address) (now : ℕ) (s : System x Address) (request : ℕ)
      (job : Job x) (before after : List (ℕ × Job x)) (at : Surroundings)
      → Steps m show version (started config now) s
      → 1 ≤ config.max_concurrency
      → s.jobs ≡ before ++ ((request, job) ∷ after)
      → (fuel : ℕ) × (answer : Answer x) × (s' : System x Address) × Steps m show version s s'
        × (s'.jobs ≡ before ++ after)
        × (closes m show (with_fuel at fuel) job s.server.sessions
            ≡ some (answer, s'.server.sessions))
  pending-answered b config now s request job before after at reached positive listed =
      let numbered = steps-IsNumbered m show version config now reached in
      let held =
        (executions-le_max config s.server.concurrency
          (steps-Refines m show version config now reached).gated).1 in
      let passed = passes request s (omega (arith, held, positive)) (numbered.once request) in
      let returned = closes-Returns m show b at job s.server.sessions in
      (
        returned.enough + 0,
        returned.value.0,
        record s {
          server = record s.server { concurrency = passed.gate; sessions = returned.value.1 };
          jobs = before ++ after;
        },
        follows passed.steps (
            answers request job before after (with_fuel at (returned.enough + 0)) returned.value.0
              returned.value.1 listed passed.outside (returned.returned 0) refl),
        refl,
        returned.returned 0,
      )
