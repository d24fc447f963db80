-- ===== src/Session.antt =====
-- src/session.rs: the store of sessions. An `Arc<Mutex<SessionEntry>>` is a reference into a heap of
-- cells, so that a handler can hold an entry that is no longer in the map; ids from `Uuid::new_v4`
-- and `Instant::now()` are arguments.
pub mod Entries
pub mod Capacity
pub mod Owners
pub mod Reaping
pub mod Links
pub mod Isolation
pub mod Expiry
use monty_server.Common.{
  ℕ, suc, ◌+◌, String, str_eq, Bool, true, false, ◌&&◌, Option, none, some, List, [], ◌∷◌, Result,
  ok, err, ok_or, map, leb, length, lookup, insert, erase, nat_key, if◌then◌else◌, get_or,
}
use monty_server.Tracker.{Tracker, Breach, ExecStats}
use monty_server.External.{Types, Object, RunProgress}
use monty_server.Engine.{Output, SessionStep}

-- `StepSnapshot`
pub data StepSnapshot (x : Types) : Type 0 where
  paused : Output → ExecStats → StepSnapshot x
  completed : Object x → Output → ExecStats → StepSnapshot x
  failed : x.Exception → Option Breach → Output → ExecStats → StepSnapshot x

-- `SessionEntry`
pub record SessionEntry (x : Types) : Type 0 where
  pub principal : String
  pub ttl : ℕ
  pub created_at : ℕ
  pub expires_at : ℕ
  pub tracker : Tracker
  pub progress : Option (RunProgress x)
  pub terminal : Bool
  pub snapshot : StepSnapshot x

-- `CreateError` and `AcquireError`
pub data CreateError : Type 0 where
  at_capacity : ℕ → CreateError

pub data AcquireError : Type 0 where
  not_found busy finished : AcquireError

-- A `Mutex` and its poison flag.
pub record Cell (x : Types) : Type 0 where
  pub entry : SessionEntry x
  pub poisoned : Bool

-- `SessionStore`, with the heap that its references point into
pub record SessionStore (x : Types) : Type 0 where
  pub sessions : List (ℕ × ℕ)
  pub max_sessions : ℕ
  pub heap : List (ℕ × Cell x)
  pub next_ref : ℕ

-- the loop of `reap_expired`
unfoldable pub remove_all : List ℕ → List (ℕ × ℕ) → List (ℕ × ℕ)
remove_all [] sessions = sessions
remove_all (id ∷ ids) sessions = remove_all ids (erase id sessions)

module _ {x : Types} where
  -- `split_step`
  unfoldable pub split_step : SessionStep x → Option (RunProgress x) × Bool × StepSnapshot x
  split_step (SessionStep.paused progress output stats) =
      (some progress, false, StepSnapshot.paused output stats)
  split_step (SessionStep.complete result output stats) =
      (none, true, StepSnapshot.completed result output stats)
  split_step (SessionStep.failed exception breach output stats) =
      (none, true, StepSnapshot.failed exception breach output stats)

  -- `SessionStore::new`
  unfoldable pub new : ℕ → SessionStore x
  new max_sessions = record { sessions = []; max_sessions = max_sessions; heap = []; next_ref = 0 }

  -- `SessionStore::len`
  unfoldable pub len : SessionStore x → ℕ
  len s = length s.sessions

  -- the entry that `create` builds
  unfoldable pub new_entry :
      String → (ttl : ℕ) → Tracker → SessionStep x → (now : ℕ) → SessionEntry x
  unfolding split_step
  new_entry principal ttl tracker step now =
      let (progress, terminal, snapshot) = split_step step in
      record {
        principal = principal;
        ttl = ttl;
        created_at = now;
        expires_at = now + ttl;
        tracker = tracker;
        progress = progress;
        terminal = terminal;
        snapshot = snapshot;
      }

  -- the test at the start of `create`
  unfoldable pub has_room : SessionStore x → Bool
  unfolding len
  has_room s = if leb s.max_sessions (len s) then false else true

  -- the rest of `create`: a new cell, and its reference under `id`
  unfoldable pub insert_entry : (id : ℕ) → SessionEntry x → SessionStore x → SessionStore x
  insert_entry id entry s = record s {
    sessions = insert id s.next_ref s.sessions;
    heap = insert s.next_ref (record { entry = entry; poisoned = false }) s.heap;
    next_ref = suc s.next_ref;
  }

  -- `SessionStore::create`; `id` is the fresh uuid
  unfoldable pub create :
      String
      → (ttl : ℕ) → Tracker
      → SessionStep x
      → (id now : ℕ) → SessionStore x
      → Result ℕ CreateError × SessionStore x
  unfolding has_room insert_entry new_entry
  create principal ttl tracker step id now s =
      if has_room s
      then (ok id, insert_entry id (new_entry principal ttl tracker step now) s)
      else (err (at_capacity s.max_sessions), s)

  -- `lock().map(|e| e.principal == principal).unwrap_or(false)`
  owns : String → Option (Cell x) → Bool
  owns principal none = false
  owns principal (some c) = if c.poisoned then false else str_eq c.entry.principal principal

  -- the cell behind an id
  unfoldable pub find : (id : ℕ) → SessionStore x → Option (ℕ × Option (Cell x))
  find id s = elim (lookup id s.sessions) [ none ↦ none | some ref ↦ some (ref, lookup ref s.heap) ]

  -- `SessionStore::get`: the reference
  unfoldable pub get : (id : ℕ) → String → SessionStore x → Option ℕ
  unfolding find owns
  get id principal s = elim (find id s) [
    | none ↦ none
    | some (ref, cell) ↦ if owns principal cell then some ref else none
  ]

  -- `SessionStore::remove`
  unfoldable pub remove : (id : ℕ) → String → SessionStore x → Bool × SessionStore x
  unfolding get
  remove id principal s = elim (get id principal s) [
    | none ↦ (false, s)
    | some _ ↦ (true, record s { sessions = erase id s.sessions })
  ]

  -- The test of `reap_expired`; a poisoned entry counts as expired.
  unfoldable pub is_expired : (now : ℕ) → Option (Cell x) → Bool
  is_expired now none = false
  is_expired now (some c) = if c.poisoned then true else leb c.entry.expires_at now

  -- the ids that `reap_expired` collects
  unfoldable pub expired_ids : (now : ℕ) → List (ℕ × Cell x) → List (ℕ × ℕ) → List ℕ
  unfolding is_expired
  expired_ids now heap [] = []
  expired_ids now heap ((id, ref) ∷ rest) =
      let ids = expired_ids now heap rest in
      if is_expired now (lookup ref heap) then id ∷ ids else ids

  -- `SessionStore::reap_expired`
  unfoldable pub reap_expired : (now : ℕ) → SessionStore x → ℕ × SessionStore x
  unfolding expired_ids remove_all
  reap_expired now s =
      let ids : List ℕ = expired_ids now s.heap s.sessions in
      (length ids, record s { sessions = remove_all ids s.sessions })

  -- `SessionEntry::acquire_for_resume`; with `none` taken out of `progress` the entry is busy
  unfoldable pub acquire_for_resume :
      SessionEntry x → Result (RunProgress x × Tracker) AcquireError × SessionEntry x
  acquire_for_resume e = if e.terminal then (err finished, e) else (elim e.progress [
    | none ↦ (err busy, e)
    | some progress ↦ (ok (progress, e.tracker), record e { progress = none })
  ])

  -- `SessionEntry::restore`
  unfoldable pub restore : RunProgress x → SessionEntry x → SessionEntry x
  restore progress e = record e { progress = some progress }

  -- `SessionEntry::store_step`; the tracker is shared with the execution, which has moved it on
  unfoldable pub store_step : SessionStep x → Tracker → (now : ℕ) → SessionEntry x → SessionEntry x
  unfolding split_step
  store_step step tracker now e =
      let (progress, terminal, snapshot) = split_step step in
      record e {
        progress = progress;
        terminal = terminal;
        snapshot = snapshot;
        tracker = tracker;
        expires_at = now + e.ttl;
      }

  -- What a handler does to an entry under its lock, which it takes whether or not it is poisoned.
  unfoldable pub update :
      (ref : ℕ) → (SessionEntry x → SessionEntry x) → SessionStore x → SessionStore x
  update ref f s = elim (lookup ref s.heap) [
    | none ↦ s
    | some c ↦ record s { heap = insert ref (record c { entry = f c.entry }) s.heap }
  ]
