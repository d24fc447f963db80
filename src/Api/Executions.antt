-- ===== src/Api/Executions.antt =====
-- The gate of `spawn_execution` (src/api/mod.rs): requests wait for a permit of the semaphore that
-- src/state.rs makes, and the blocking task holds it until it ends.
use monty_server.Common.{
  ℕ, zero, suc, ◌+◌, ◌≤◌, ◌≡◌, refl, List, [], ◌∷◌, ◌++◌, arith, length, length-append,
}
use monty_server.Config.{Config}

-- The permits left, the requests that wait for one, and the blocking tasks, by the numbers of
-- their requests.
pub record Gate : Type 0 where
  pub permits : ℕ
  pub waiting : List ℕ
  pub running : List ℕ

-- `Semaphore::new(config.max_concurrency)`. Above `Semaphore::MAX_PERMITS` (2 ^ 61 - 1 on a 64-bit
-- machine) tokio panics here, and the server does not start.
unfoldable pub open_gate : {Address : Type 0} → Config Address → Gate
open_gate config = record { permits = config.max_concurrency; waiting = []; running = [] }

-- One step. A permit is granted only if one is left; which of the requests gets it is the
-- semaphore's choice. A request that is dropped, as its time is over or its client gone, stops
-- waiting, but its task goes on.
pub data Step (g g' : Gate) : Type 0 where
  arrives : (request : ℕ) → g' ≡ record g { waiting = request ∷ g.waiting } → Step g g'
  acquires :
      (request left : ℕ) (before after : List ℕ)
      → g.waiting ≡ before ++ (request ∷ after)
      → g.permits ≡ suc left
      → g' ≡ record { permits = left; waiting = before ++ after; running = request ∷ g.running }
      → Step g g'
  gives_up :
      (request : ℕ) (before after : List ℕ)
      → g.waiting ≡ before ++ (request ∷ after)
      → g' ≡ record g { waiting = before ++ after }
      → Step g g'
  ends :
      (request : ℕ) (before after : List ℕ)
      → g.running ≡ before ++ (request ∷ after)
      → g' ≡ record g { permits = suc g.permits; running = before ++ after }
      → Step g g'

pub data Steps (g : Gate) : Gate → Type 0 where
  stays : Steps g g
  follows : {u g' : Gate} → Steps g u → Step u g' → Steps g g'

-- The permits are those that are left and those that tasks hold.
Holds : ℕ → Gate → Type 0
Holds total g = g.permits + length g.running ≡ total

length-middle :
    (request : ℕ) (before after : List ℕ)
    → length (before ++ (request ∷ after)) ≡ suc (length (before ++ after))
length-middle request before after =
    omega (arith, length-append before (request ∷ after), length-append before after)

Step-Holds : (total : ℕ) {g g' : Gate} → Step g g' → Holds total g → Holds total g'
unfolding Holds
Step-Holds total (arrives request e) h = ground (arith, e, h)
Step-Holds total (acquires request left before after w p e) h = ground (arith, e, h, p)
Step-Holds total (gives_up request before after w e) h = ground (arith, e, h)
Step-Holds total (ends request before after r e) h =
    ground (arith, e, h, r, length-middle request before after)

Steps-Holds : (total : ℕ) {g g' : Gate} → Steps g g' → Holds total g → Holds total g'
Steps-Holds total stays h = h
Steps-Holds total (follows before step) h = Step-Holds total step (Steps-Holds total before h)

-- From the start of the server, however requests arrive, get permits, are dropped and end: the
-- blocking tasks that run are at most `max_concurrency`, and together with the permits that are
-- left they are exactly that many.
pub executions-le_max :
    {Address : Type 0} (config : Config Address) (g : Gate)
    → Steps (open_gate config) g
    → (length g.running ≤ config.max_concurrency)
      × (g.permits + length g.running ≡ config.max_concurrency)
unfolding open_gate Holds
executions-le_max config g steps =
    let held = Steps-Holds config.max_concurrency steps (omega arith) in (omega (arith, held), held)

-- There is a run from here in which the task of a waiting request starts.
CanStart : ℕ → Gate → Type 0
CanStart request g = (g' : Gate) × (rest : List ℕ) × Steps g g' × (g'.running ≡ request ∷ rest)

start_with_permit :
    (request left : ℕ) (before after : List ℕ) (g u : Gate)
    → Steps g u
    → u.waiting ≡ before ++ (request ∷ after)
    → u.permits ≡ suc left
    → CanStart request g
unfolding CanStart
start_with_permit request left before after g u steps w p =
    (_, u.running, follows steps (acquires request left before after w p refl), refl)

start_from :
    (request : ℕ) (before after : List ℕ) (g : Gate) (permits : ℕ) (running : List ℕ)
    → g.waiting ≡ before ++ (request ∷ after)
    → g.permits ≡ permits
    → g.running ≡ running
    → 1 ≤ permits + length running
    → CanStart request g
start_from request before after g (suc left) running w p r some_left =
    start_with_permit request left before after g g stays w p
start_from request before after g zero [] w p r some_left = absurd (omega (arith, some_left))
start_from request before after g zero (task ∷ tasks) w p r some_left =
    start_with_permit request g.permits before after g
      (record g { permits = suc g.permits; running = tasks })
      (follows stays (ends task [] tasks r refl)) w refl

-- If `max_concurrency` is at least 1, then in every state of the gate that steps from the start of
-- the server lead to, and for every request that waits in it, there are further steps after which
-- the task of that request runs.
pub waiting-CanStart :
    {Address : Type 0} (config : Config Address) (g : Gate) (request : ℕ) (before after : List ℕ)
    → Steps (open_gate config) g
    → 1 ≤ config.max_concurrency
    → g.waiting ≡ before ++ (request ∷ after)
    → (g' : Gate) × (rest : List ℕ) × Steps g g' × (g'.running ≡ request ∷ rest)
unfolding CanStart
waiting-CanStart config g request before after steps positive w =
    start_from request before after g g.permits g.running w refl refl
      (omega (arith, positive, (executions-le_max config g steps).1))
