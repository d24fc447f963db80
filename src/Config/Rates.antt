-- ===== src/Config/Rates.antt =====
-- The rates that `load_auth` (src/config.rs) gives callers, as the limiter (src/rate_limit.rs) reads
-- them.
use monty_server.Common.{
  ℕ, ◌≡◌, sym, ◌∙◌, ok-injective, refl, subst, String, false, Option, none, some, List, [], ◌∷◌, ok,
  ◌>>=◌, >>=-eq-ok, map_err, arith, All, lookup, erase, insert, string_key, str_eq, Option-cases,
  Bool-cases, inl, inr,
}
use monty_server.Text.{is_empty, trim, split, parse_unsigned}
use monty_server.Config.{RateRule, rate_rule, Principal, Auth, disabled, tokens}
use monty_server.Config.Env.{int, Vars, max_u32, env_str}
use monty_server.Config.Tokens.{entry_of, read_entries, auth_of, load_auth}
use monty_server.RateLimit.Level.{IsSteady, IsPositive}
use monty_server.Auth.{Caller, Request, bearer_token, authenticate}

-- A rate that admits a request in the end, and whose bucket is full after ten minutes.
abbrev pub IsUsable : RateRule → Type 0
IsUsable rule = IsPositive rule × IsSteady rule

pub rate_rule-IsUsable : (per_minute : ℕ) → IsUsable (rate_rule per_minute)
unfolding rate_rule
rate_rule-IsUsable per_minute = ground arith

IsUsableEntry : String × Principal → Type 0
IsUsableEntry e = IsUsable e.1.rate

erase-All :
    (secret : String) (table : List (String × Principal))
    → All IsUsableEntry table
    → All IsUsableEntry (erase secret table)
unfolding erase
erase-All secret [] h = tt
erase-All secret ((j, q) ∷ table) (h, hs) = elim (Bool-cases (str_eq j secret)) [
  | inl same ↦ rw (erase, same) (erase-All secret table hs)
  | inr other ↦ rw (erase, other) (h, erase-All secret table hs)
]

insert-All :
    (secret : String) (p : Principal) (table : List (String × Principal))
    → IsUsable p.rate
    → All IsUsableEntry table
    → All IsUsableEntry (insert secret p table)
unfolding insert IsUsableEntry
insert-All secret p table h hs = (h, erase-All secret table hs)

lookup-All :
    (secret : String) (p : Principal) (table : List (String × Principal))
    → All IsUsableEntry table
    → lookup secret table ≡ some p
    → IsUsable p.rate
unfolding lookup IsUsableEntry
lookup-All secret p [] h found = ground arith
lookup-All secret p ((j, q) ∷ table) (h, hs) found =
    ground (arith, lookup-All secret p table hs, found, h)

entry_of-IsUsable :
    (default_rate : RateRule) (entry : String) (parts : List String) (e : String × Principal)
    → IsUsable default_rate
    → entry_of default_rate entry parts ≡ ok e
    → IsUsable e.1.rate
unfolding entry_of IsUsableEntry
entry_of-IsUsable default_rate entry [] e h read = ground arith
entry_of-IsUsable default_rate entry (a ∷ []) e h read = ground arith
entry_of-IsUsable default_rate entry (a ∷ b ∷ []) e h read = ground arith
entry_of-IsUsable default_rate entry (a ∷ b ∷ c ∷ []) e h read =
    let (per_minute, _, same) =
      >>=-eq-ok (map_err (int "MONTY_API_TOKENS") (parse_unsigned max_u32 c))
        (λ n. ok (b, record { name = a; rate = rate_rule n })) read in
    subst IsUsableEntry (ok-injective same) (rate_rule-IsUsable per_minute)
entry_of-IsUsable default_rate entry (a ∷ b ∷ c ∷ d ∷ rest) e h read = ground arith

read_filled :
    (default_rate : RateRule) (part : String) (parts : List String)
    (table : List (String × Principal))
    → is_empty (trim part) ≡ false
    → read_entries default_rate (part ∷ parts) table ≡ (do
      added ← entry_of default_rate (trim part) (split 58 (trim part))
      read_entries default_rate parts (insert added.0 added.1 table))
unfolding read_entries
read_filled default_rate part parts table filled = rw (read_entries, filled) refl

read_entries-All :
    (default_rate : RateRule) (parts : List String) (table known : List (String × Principal))
    → IsUsable default_rate
    → All IsUsableEntry table
    → read_entries default_rate parts table ≡ ok known
    → All IsUsableEntry known
unfolding read_entries
read_entries-All default_rate [] table known h hs read =
    subst (All IsUsableEntry) (ok-injective read) hs
read_entries-All default_rate (part ∷ parts) table known h hs read =
    elim (Bool-cases (is_empty (trim part))) [
      | inl blank ↦
          read_entries-All default_rate parts table known h hs (ground (arith, read, blank))
      | inr filled ↦
          (let (added, taken, rest) =
              >>=-eq-ok _ _ (sym (read_filled default_rate part parts table filled) ∙ read) in
            read_entries-All default_rate parts (insert added.0 added.1 table) known h
              (insert-All added.0 added.1 table
                (entry_of-IsUsable default_rate (trim part) (split 58 (trim part)) added h taken)
                hs)
              rest)
    ]

pub IsUsableAuth : Auth → Type 0
IsUsableAuth disabled = Unit
IsUsableAuth (tokens known) = All IsUsableEntry known

load_auth-set :
    (vars : Vars) (default_rate : RateRule) (raw : String)
    → env_str vars "MONTY_API_TOKENS" ≡ some raw
    → load_auth vars default_rate
      ≡ (do table ← read_entries default_rate (split 44 raw) []; ok (auth_of table))
unfolding load_auth read_entries
load_auth-set vars default_rate raw set = rw (load_auth, set) refl

auth_of-IsUsable :
    (table : List (String × Principal)) → All IsUsableEntry table → IsUsableAuth (auth_of table)
unfolding IsUsableAuth
auth_of-IsUsable [] h = tt
auth_of-IsUsable (e ∷ table) h = h

pub load_auth-IsUsable :
    (vars : Vars) (default_rate : RateRule) (auth : Auth)
    → IsUsable default_rate
    → load_auth vars default_rate ≡ ok auth
    → IsUsableAuth auth
unfolding load_auth IsUsableAuth
load_auth-IsUsable vars default_rate auth h read =
    elim (Option-cases (env_str vars "MONTY_API_TOKENS")) [
      | inl unset ↦ ground arith
      | inr (raw, set) ↦
          (let (table, loaded, last) =
              >>=-eq-ok (read_entries default_rate (split 44 raw) []) (λ table. ok (auth_of table))
                (sym (load_auth-set vars default_rate raw set) ∙ read) in
            subst IsUsableAuth (ok-injective last) (
              auth_of-IsUsable table
                (read_entries-All default_rate (split 44 raw) [] table h tt loaded)))
    ]

IsUsableOption : Option Principal → Type 0
IsUsableOption none = Unit
IsUsableOption (some p) = IsUsable p.rate

pub authenticate-IsUsable :
    (auth : Auth) (default_rate : RateRule) (r : Request) (caller : Caller)
    → IsUsable default_rate
    → IsUsableAuth auth
    → authenticate auth default_rate r ≡ ok caller
    → IsUsable caller.rate
unfolding authenticate IsUsableAuth
authenticate-IsUsable disabled default_rate r caller h known same = ground arith
authenticate-IsUsable (tokens known) default_rate r caller h hs same =
    elim (Option-cases (bearer_token r)) [
      | inl absent ↦ ground (arith, same, absent)
      | inr (secret, given) ↦ elim (Option-cases (lookup secret known)) [
        | inl unknown ↦ ground (arith, same, given, unknown)
        | inr (p, found) ↦ ground (arith, same, given, found, lookup-All secret p known hs found)
      ]
    ]
