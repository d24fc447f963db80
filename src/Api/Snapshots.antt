-- ===== src/Api/Snapshots.antt =====
-- A program that `POST /v1/compile` (src/api/compile.rs) has compiled, in a run (src/api/run.rs) and
-- in a session (src/api/sessions.rs).
use mathlib.Core.Option
use monty_server.Common.{
  ℕ, ◌≡◌, refl, ap, sym, String, Option, some, List, ok, err, Result-cases, inl, inr, get_or,
}
use monty_server.Error.{ApiError}
use monty_server.Config.{LimitBounds, SessionConfig}
use monty_server.Limits.{LimitsRequest, ResolvedLimits, resolve}
use monty_server.External.{Types, Externals, Fields, Objects}
use monty_server.Engine.{Readings}
use monty_server.Api.{TaskEnd, joined_at, spawn_execution}
use monty_server.Api.Dto.{SourceSpec, into_spec, decode_snapshot}
use monty_server.Api.Dto.Snapshots.{
  names, values, of_code, of_snapshot, read_inputs, into_spec-of_code, into_spec-of_snapshot,
}
use monty_server.Api.Run.{run, execute}
use monty_server.Api.Run.Sources.{execute-code}
use monty_server.Api.Compile.{CompileRequest, compiled, compile}
use monty_server.Api.Compile.Compiled.{Compiled, compile-Compiled}
use monty_server.Api.Sessions.Handlers.{Surroundings, start_task, store_started, spawned, create}
use monty_server.Api.Sessions.Requests.{resolve_ttl}
use monty_server.Session.{SessionStore}

-- What base64 and monty say of the bytes of a program.
pub record SnapshotLaws {x : Types} (m : Externals x) : Type 0 where
  pub decodes :
      (program : x.Run) (bytes : List ℕ)
      → m.dump program ≡ some bytes
      → m.base64_decode (m.base64_encode bytes) ≡ ok bytes
  pub loads :
      (program : x.Run) (bytes : List ℕ) → m.dump program ≡ some bytes → m.load bytes ≡ ok program

module _ {x : Types} (m : Externals x) (laws : SnapshotLaws m) where
  Compiled-decode_snapshot :
      (request : CompileRequest) (text : String) (input_names : List String)
      (c : Compiled m request text input_names)
      → decode_snapshot m text ≡ ok c.program
  unfolding decode_snapshot
  Compiled-decode_snapshot request text input_names c =
      rw
        (
          decode_snapshot,
          sym c.encodes,
          laws.decodes c.program c.bytes c.dumps,
          laws.loads c.program c.bytes c.dumps,
        )
        refl

  module _ (request : CompileRequest) (text : String) (fields : Fields x)
      (c : Compiled m request text (names fields)) where
    abbrev code_spec : Objects x → SourceSpec x
    code_spec = SourceSpec.code request.code (get_or request.filename "main.py") (names fields)

    -- What treats the program as code and as compiled in the same way treats the sources alike.
    into_spec_agrees :
        {A : Type 0} (filename : Option String) (limits : Option LimitsRequest)
        (fails : ApiError → A) (reads : SourceSpec x → A)
        → ((objects : Objects x)
            → reads (SourceSpec.snapshot c.program objects) ≡ reads (code_spec objects))
        → elim (into_spec m (of_snapshot text filename (values fields) limits)) [
          | err e ↦ fails e
          | ok spec ↦ reads spec
        ]
          ≡ elim (into_spec m (of_code request.code request.filename fields limits)) [
            | err e ↦ fails e
            | ok spec ↦ reads spec
          ]
    into_spec_agrees filename limits fails reads same =
        rw
          (
            into_spec-of_snapshot m text filename (values fields) limits
                (Compiled-decode_snapshot request text (names fields) c),
            into_spec-of_code m request.code request.filename fields limits,
          )
          (elim (Result-cases (read_inputs m (values fields))) [
            | inl (objects, e) ↦ rw e (same objects)
            | inr (e, fails) ↦ rw fails refl
          ])

    run_agrees :
        (bounds : LimitBounds) (at : Readings) (task_end : TaskEnd) (filename : Option String)
        (limits : Option LimitsRequest)
        → run m bounds at task_end (of_snapshot text filename (values fields) limits)
          ≡ run m bounds at task_end (of_code request.code request.filename fields limits)
    unfolding run
    run_agrees bounds at task_end filename limits =
        into_spec_agrees filename limits (λ e. err e)
          (λ spec. spawn_execution (joined_at task_end (execute m at (resolve limits bounds) spec)))
          (λ objects.
            ap (λ r. spawn_execution (joined_at task_end r))
              (sym (
                execute-code m at (resolve limits bounds) request.code
                  (get_or request.filename "main.py") (names fields) objects c.compiles)))

    start_task_agrees :
        (at : Surroundings) (limits : ResolvedLimits) (objects : Objects x)
        → start_task m at limits (SourceSpec.snapshot c.program objects)
          ≡ start_task m at limits (code_spec objects)
    unfolding start_task
    start_task_agrees at limits objects = rw (start_task, c.compiles) refl

    create_agrees :
        (show : ℕ → String) (bounds : LimitBounds) (config : SessionConfig) (at : Surroundings)
        (caller : String) (filename : Option String) (limits : Option LimitsRequest)
        (ttl_seconds : Option ℕ) (s : SessionStore x)
        → create m show bounds config at caller
            (record {
              source = of_snapshot text filename (values fields) limits;
              ttl_seconds = ttl_seconds;
            })
            s
          ≡ create m show bounds config at caller
              (record {
                source = of_code request.code request.filename fields limits;
                ttl_seconds = ttl_seconds;
              })
              s
    unfolding create
    create_agrees show bounds config at caller filename limits ttl_seconds s =
        into_spec_agrees filename limits (λ e. some (err e, s))
          (λ spec.
            Option.map (λ r. store_started m show at (resolve_ttl ttl_seconds config) caller r s)
              (spawned at.task_end (start_task m at (resolve limits bounds) spec)))
          (λ objects.
            ap
              (λ t.
                Option.map
                  (λ r. store_started m show at (resolve_ttl ttl_seconds config) caller r s)
                  (spawned at.task_end t))
              (start_task_agrees at (resolve limits bounds) objects))

  -- If `compile` returns a snapshot, then a run with that snapshot and with inputs by position
  -- answers as a run of the program's code under its file name does with the same inputs by name,
  -- in the order that `compile` echoes, and the creation of a session gives the same answer and the
  -- same store for both, refusals and errors included, if base64 and monty read back the bytes that
  -- monty writes of a program.
  pub compile_reused :
      (compile_end : TaskEnd) (request : CompileRequest) (text : String) (fields : Fields x)
      (bounds : LimitBounds) (at : Surroundings) (limits : Option LimitsRequest)
      (filename : Option String) (show : ℕ → String) (config : SessionConfig) (caller : String)
      (ttl_seconds : Option ℕ) (s : SessionStore x)
      → compile m compile_end request ≡ ok (compiled text (names fields))
      → (run m bounds at.readings at.task_end (of_snapshot text filename (values fields) limits)
          ≡ run m bounds at.readings at.task_end
              (of_code request.code request.filename fields limits))
        × (create m show bounds config at caller
              (record {
                source = of_snapshot text filename (values fields) limits;
                ttl_seconds = ttl_seconds;
              })
              s
            ≡ create m show bounds config at caller
                (record {
                  source = of_code request.code request.filename fields limits;
                  ttl_seconds = ttl_seconds;
                })
                s)
  compile_reused compile_end request text fields bounds at limits filename show config caller
        ttl_seconds s returned =
      let c = compile-Compiled m compile_end request text (names fields) returned in
      (
        run_agrees request text fields c bounds at.readings at.task_end filename limits,
        create_agrees request text fields c show bounds config at caller filename limits ttl_seconds
            s,
      )
