-- ===== src/Tests/Snapshots.antt =====
-- Tests of a compiled program in a run and in a session: one program of no calls can be written.
use monty_server.Common.{ℕ, zero, suc, ◌≡◌, refl, Option, none, some, List, [], ◌∷◌, ok}
use monty_server.External.{Externals, null, done, field, Fields}
use monty_server.Api.{completes, spawn_execution}
use monty_server.Api.Run.{run}
use monty_server.Api.Compile.{CompileRequest, compile}
use monty_server.Api.Sessions.Handlers.{create}
use monty_server.Api.Dto.Snapshots.{names, values, of_code, of_snapshot}
use monty_server.Api.Snapshots.{SnapshotLaws, compile_reused}
use monty_server.Tests.Samples.{types, externals, bounds}
use monty_server.Tests.Configs.{loaded}
use monty_server.Tests.Requests.{one_session}
use monty_server.Tests.Servers.{digits, at}

abbrev written : ℕ → Option (List ℕ)
written zero = some []
written (suc n) = none

abbrev writing : Externals types
writing = record externals { base64_decode = λ _. ok []; dump = written }

decodes_written :
    (program : ℕ) (bytes : List ℕ)
    → written program ≡ some bytes
    → writing.base64_decode (writing.base64_encode bytes) ≡ ok bytes
decodes_written zero bytes h = cc
decodes_written (suc n) bytes h = cc

loads_written :
    (program : ℕ) (bytes : List ℕ) → written program ≡ some bytes → writing.load bytes ≡ ok program
loads_written zero bytes h = refl
loads_written (suc n) bytes h = cc

laws : SnapshotLaws writing
laws = record { decodes = decodes_written; loads = loads_written }

abbrev request : CompileRequest
request = record { code = "f(a)"; filename = none; inputs = some ("a" ∷ []) }

abbrev inputs : Fields types
inputs = field "a" null done

compile_reused_example :
    (run writing bounds at.readings at.task_end (of_snapshot "" none (values inputs) none)
      ≡ run writing bounds at.readings at.task_end (of_code "f(a)" none inputs none))
    × (create writing digits bounds loaded.sessions at "alice"
          (record { source = of_snapshot "" none (values inputs) none; ttl_seconds = none })
          one_session
        ≡ create writing digits bounds loaded.sessions at "alice"
            (record { source = of_code "f(a)" none inputs none; ttl_seconds = none })
            one_session)
unfolding compile names spawn_execution
compile_reused_example =
    compile_reused writing laws completes request "" inputs bounds at none none digits
      loaded.sessions "alice" none one_session refl
