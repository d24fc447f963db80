-- ===== src/Config/Tokens.antt =====
-- `load_auth` of src/config.rs: the variable `MONTY_API_TOKENS`. The map of tokens is its entries.
pub mod Written
use monty_server.Common.{
  String, Bool, true, false, Option, none, some, List, [], ◌∷◌, Result, ok, err, ◌>>=◌, map_err,
  insert, string_key,
}
use monty_server.Text.{is_empty, trim, split, parse_unsigned}
use monty_server.Config.{RateRule, rate_rule, Principal, Auth, disabled, tokens}
use monty_server.Config.Env.{ConfigError, int, token, Vars, max_u32, env_str}

-- One turn of the loop: the token and its principal, from the parts of an entry.
unfoldable pub entry_of :
    (default_rate : RateRule)
    → (entry : String) → (parts : List String) → Result (String × Principal) ConfigError
entry_of default_rate entry (secret ∷ []) =
    ok (secret, record { name = secret; rate = default_rate })
entry_of default_rate entry (name ∷ secret ∷ []) =
    ok (secret, record { name = name; rate = default_rate })
entry_of default_rate entry (name ∷ secret ∷ rpm ∷ []) = do
  per_minute ← map_err (int "MONTY_API_TOKENS") (parse_unsigned max_u32 rpm)
  ok (secret, record { name = name; rate = rate_rule per_minute })
entry_of default_rate entry _ = err (token entry)

-- The loop, over the parts of the variable; `table` is the map so far.
unfoldable pub read_entries :
    (default_rate : RateRule)
    → List String
    → (table : List (String × Principal)) → Result (List (String × Principal)) ConfigError
unfolding entry_of
read_entries default_rate [] table = ok table
read_entries default_rate (part ∷ parts) table =
    let entry : String = trim part in
    elim (is_empty entry) [
      | true ↦ read_entries default_rate parts table
      | false ↦ (do
        added ← entry_of default_rate entry (split 58 entry)
        read_entries default_rate parts (insert added.0 added.1 table))
    ]

-- the end of `load_auth`
abbrev pub auth_of : List (String × Principal) → Auth
auth_of [] = disabled
auth_of (entry ∷ table) = tokens (entry ∷ table)

-- `load_auth`
unfoldable pub load_auth : Vars → (default_rate : RateRule) → Result Auth ConfigError
unfolding read_entries
load_auth vars default_rate = elim (env_str vars "MONTY_API_TOKENS") [
  | none ↦ ok disabled
  | some raw ↦ (do table ← read_entries default_rate (split 44 raw) []; ok (auth_of table))
]
