-- ===== src/Server/Concurrent/Numbered.antt =====
-- The numbers of the requests at the gate (src/api/mod.rs): each stands there once at most.
use monty_server.Common.{
  ℕ, suc, ◌+◌, ◌≤◌, ◌≡◌, refl, sym, subst, ap, List, [], ◌∷◌, ◌++◌, arith, ==_iff, String, nat_key,
}
use monty_server.Config.{Config}
use monty_server.External.{Types, Externals}
use monty_server.Api.Executions.{Gate, open_gate}
use monty_server.Api.Sessions.Flights.{count}
use monty_server.Server.{new, sweep}
use monty_server.Server.Concurrent.{
  System, Step, answers_at_once, arrives, acquires, ends, answers, gives_up, disconnects, sweeps,
  Steps, stays, follows, started,
}
use monty_server.Server.Concurrent.Views.{count-middle}
use monty_server.Server.Concurrent.Halves.{arrived-ArrivesTo}

-- how often a request stands at the gate
abbrev pub stands : ℕ → Gate → ℕ
stands request gate = count request gate.waiting + count request gate.running

pub record IsNumberedAt (next : ℕ) (gate : Gate) : Type 0 where
  pub once : (request : ℕ) → stands request gate ≤ 1
  pub fresh : (request : ℕ) → next ≤ request → stands request gate ≡ 0

arrives-IsNumberedAt :
    (next : ℕ) (gate : Gate)
    → IsNumberedAt next gate
    → IsNumberedAt (suc next) (record gate { waiting = next ∷ gate.waiting })
unfolding count
arrives-IsNumberedAt next gate h = record {
  once = λ r. ground (arith, h.once r, h.fresh r, ==_iff next r);
  fresh = λ r le. ground (arith, h.fresh r, ==_iff next r);
}

-- No request stands at the gate more often than before.
fewer-IsNumberedAt :
    (next : ℕ) (gate gate' : Gate)
    → ((request : ℕ) → stands request gate' ≤ stands request gate)
    → IsNumberedAt next gate
    → IsNumberedAt next gate'
fewer-IsNumberedAt next gate gate' fewer h = record {
  once = λ r. omega (arith, h.once r, fewer r);
  fresh = λ r le. omega (arith, h.fresh r le, fewer r);
}

acquires-fewer :
    (request permits : ℕ) (before after : List ℕ) (gate : Gate)
    → gate.waiting ≡ before ++ (request ∷ after)
    → (r : ℕ)
    → stands r
        (record { permits = permits; waiting = before ++ after; running = request ∷ gate.running })
      ≤ stands r gate
unfolding count
acquires-fewer request permits before after gate w r =
    ground (arith, ap (count r) w, count-middle r request before after)

gives_up-fewer :
    (request : ℕ) (before after : List ℕ) (gate : Gate)
    → gate.waiting ≡ before ++ (request ∷ after)
    → (r : ℕ) → stands r (record gate { waiting = before ++ after }) ≤ stands r gate
gives_up-fewer request before after gate w r =
    ground (arith, ap (count r) w, count-middle r request before after)

ends-fewer :
    (request permits : ℕ) (before after : List ℕ) (gate : Gate)
    → gate.running ≡ before ++ (request ∷ after)
    → (r : ℕ)
    → stands r (record gate { permits = permits; running = before ++ after }) ≤ stands r gate
ends-fewer request permits before after gate w r =
    ground (arith, ap (count r) w, count-middle r request before after)

module _ {x : Types} (m : Externals x) (show : ℕ → String) (version : String)
    {Address : Type 0} where
  abbrev pub IsNumbered : System x Address → Type 0
  IsNumbered s = IsNumberedAt s.next s.server.concurrency

  Step-IsNumbered :
      (s s' : System x Address) → Step m show version s s' → IsNumbered s → IsNumbered s'
  unfolding sweep
  Step-IsNumbered s s' (answers_at_once moment route answer u got e) h =
      let same = (arrived-ArrivesTo m show version moment route s.server [] got).1 in
      subst IsNumbered (sym e) (subst (IsNumberedAt s.next) (sym same) h)
  Step-IsNumbered s s' (arrives moment route job u got e) h =
      let same = (arrived-ArrivesTo m show version moment route s.server [] got).1 in
      subst IsNumbered (sym e)
        (arrives-IsNumberedAt s.next u.concurrency (subst (IsNumberedAt s.next) (sym same) h))
  Step-IsNumbered s s' (acquires request left before after w p e) h = subst IsNumbered (sym e) (
      fewer-IsNumberedAt s.next s.server.concurrency _
        (acquires-fewer request left before after s.server.concurrency w) h)
  Step-IsNumbered s s' (ends request before after r e) h = subst IsNumbered (sym e) (
      fewer-IsNumberedAt s.next s.server.concurrency _
        (ends-fewer request (suc s.server.concurrency.permits) before after s.server.concurrency r)
        h)
  Step-IsNumbered s s' (answers request job before after at answer sessions listed outside got e)
        h =
      subst IsNumbered (sym e) h
  Step-IsNumbered s s' (gives_up request job before after ahead behind listed w e) h =
      subst IsNumbered (sym e) (
        fewer-IsNumberedAt s.next s.server.concurrency _
          (gives_up-fewer request ahead behind s.server.concurrency w) h)
  Step-IsNumbered s s' (disconnects request job before after listed w e) h =
      subst IsNumbered (sym e) h
  Step-IsNumbered s s' (sweeps tick e) h = subst IsNumbered (sym e) h

  pub steps-IsNumbered :
      (config : Config Address) (now : ℕ) {s : System x Address}
      → Steps m show version (started config now) s
      → IsNumbered s
  unfolding new open_gate count
  steps-IsNumbered config now stays = record { once = λ r. omega arith; fresh = λ r le. refl }
  steps-IsNumbered config now (follows before step) =
      Step-IsNumbered _ _ step (steps-IsNumbered config now before)
