-- ===== src/Api/Run/Sources.antt =====
-- A source of src/api/run.rs as code, and as the program that it compiles to.
use monty_server.Common.{◌≡◌, refl, String, List, ok}
use monty_server.Limits.{ResolvedLimits}
use monty_server.External.{Types, Externals, Objects}
use monty_server.Engine.{Readings}
use monty_server.Api.Dto.{code, snapshot}
use monty_server.Api.Run.{execute}

module _ {x : Types} (m : Externals x) where
  pub execute-code :
      (at : Readings) (limits : ResolvedLimits) (text filename : String) (input_names : List String)
      (inputs : Objects x) {program : x.Run}
      → m.compile text filename input_names ≡ ok program
      → execute m at limits (code text filename input_names inputs)
        ≡ execute m at limits (snapshot program inputs)
  unfolding execute
  execute-code at limits text filename input_names inputs e = rw (execute, e) refl
