-- ===== src/Api/Compile/Compiled.antt =====
-- What `POST /v1/compile` (src/api/compile.rs) has done when it returns a snapshot.
use monty_server.Common.{
  ◌≡◌, sym, String, List, some, ok, Result-cases, inl, inr, get_or, arith, ℕ, Option-cases, [],
}
use monty_server.External.{Types, Externals}
use monty_server.Api.{TaskEnd, spawn_execution, completes, refused, panics}
use monty_server.Api.Compile.{CompileRequest, compiled, compile, compile_task}

module _ {x : Types} (m : Externals x) where
  -- The program behind a snapshot.
  pub record Compiled (request : CompileRequest) (text : String) (input_names : List String)
      : Type 0 where
    pub program : x.Run
    pub names : input_names ≡ get_or request.inputs []
    pub compiles :
        m.compile request.code (get_or request.filename "main.py") input_names ≡ ok program
    pub bytes : List ℕ
    pub dumps : m.dump program ≡ some bytes
    pub encodes : m.base64_encode bytes ≡ text

  compile_task-Compiled :
      (request : CompileRequest) (text : String) (input_names : List String)
      → compile_task m request.code (get_or request.filename "main.py") (get_or request.inputs [])
        ≡ ok (compiled text input_names)
      → Compiled request text input_names
  unfolding compile_task
  compile_task-Compiled request text input_names h =
      elim (Result-cases
        (m.compile request.code (get_or request.filename "main.py") (get_or request.inputs []))) [
          | inr (e, fails) ↦ ground (arith, h, fails)
          | inl (program, compiles) ↦ elim (Option-cases (m.dump program)) [
            | inl none_dumped ↦ ground (arith, h, compiles, none_dumped)
            | inr (bytes, dumps) ↦
                let same : get_or request.inputs [] ≡ input_names =
                  ground (arith, h, compiles, dumps) in
                record {
                  program = program;
                  names = sym same;
                  compiles = rw (sym same) compiles;
                  bytes = bytes;
                  dumps = dumps;
                  encodes = ground (arith, h, compiles, dumps);
                }
          ]
        ]

  pub compile-Compiled :
      (task_end : TaskEnd) (request : CompileRequest) (text : String) (input_names : List String)
      → compile m task_end request ≡ ok (compiled text input_names)
      → Compiled request text input_names
  unfolding compile spawn_execution
  compile-Compiled completes request text input_names h =
      compile_task-Compiled request text input_names h
  compile-Compiled refused request text input_names h = cc
  compile-Compiled panics request text input_names h = cc
