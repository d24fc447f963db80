-- ===== src/Api.antt =====
-- src/api: the handlers behind the `/v1` routes.
pub mod Dto
pub mod Run
pub mod Compile
pub mod Sessions
pub mod Executions
pub mod Snapshots
use monty_server.Common.{err}
use monty_server.Error.{ApiResult, internal}

-- How tokio ends a blocking task: with its result, or not, as the semaphore was closed or the task
-- panicked.
pub data Spawned (A : Type 0) : Type 0 where
  joined : ApiResult A → Spawned A
  closed panicked : Spawned A

-- How the task of a request ends.
pub data TaskEnd : Type 0 where
  completes refused panics : TaskEnd

-- `spawn_execution`, from the end of its task
unfoldable pub spawn_execution : {A : Type 0} → Spawned A → ApiResult A
spawn_execution (joined result) = result
spawn_execution closed = err internal
spawn_execution panicked = err internal

-- What tokio gives back of a task that returns a result.
abbrev pub joined_at : {A : Type 0} → TaskEnd → ApiResult A → Spawned A
joined_at completes result = joined result
joined_at refused result = closed
joined_at panics result = panicked
