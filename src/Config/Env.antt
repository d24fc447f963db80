-- ===== src/Config/Env.antt =====
-- The readers of src/config.rs for one environment variable, and its errors.
use monty_server.Common.{
  ℕ, ◌-◌, ◌^◌, String, Option, none, some, Result, ok, map_err, if◌then◌else◌,
}
use monty_server.Text.{IntError, is_empty, trim, parse_unsigned}

-- `ConfigError`
pub data ConfigError : Type 0 where
  int : (var : String) → IntError → ConfigError
  addr : String → ConfigError
  token : String → ConfigError

-- `std::env::var(…).ok()`: the environment of the process
abbrev pub Vars : Type 0
Vars = String → Option String

-- `u16::MAX`, `u32::MAX` and `u64::MAX`; a `usize` is a `u64`.
abbrev pub max_u16 : ℕ
max_u16 = 2 ^ 16 - 1

abbrev pub max_u32 : ℕ
max_u32 = 2 ^ 32 - 1

abbrev pub max_u64 : ℕ
max_u64 = 2 ^ 64 - 1

-- `env_str`
unfoldable pub env_str : Vars → String → Option String
env_str vars var = elim (vars var) [
  | none ↦ none
  | some value ↦ if is_empty (trim value) then none else some value
]

-- `env_int` and the `unwrap_or` on its value; `max_value` is that of the type.
unfoldable pub env_int :
    Vars → (max_value : ℕ) → String → (default_value : ℕ) → Result ℕ ConfigError
unfolding env_str
env_int vars max_value var default_value = elim (env_str vars var) [
  | none ↦ ok default_value
  | some value ↦ map_err (int var) (parse_unsigned max_value value)
]
