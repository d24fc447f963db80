-- ===== src/Config/Tokens/Written.antt =====
-- `MONTY_API_TOKENS` of src/config.rs as an operator writes it, and what `load_auth` makes of it.
use Prim.Native.String.{◌++◌ as str_append}
use monty_server.Common.{
  ℕ, ◌≡◌, refl, ◌∙◌, ap, String, str_eq, false, Option, none, some, List, [], ◌∷◌, map, ok, arith,
  All, if◌then◌else◌, lookup, insert, lookup-insert, string_key,
}
use monty_server.Text.{is_empty, trim, split, split_once, parse_unsigned}
use monty_server.Text.Splitting.{is_empty-trim, is_blank-append, split-whole, split-append}
use monty_server.Config.{RateRule, rate_rule, Principal, tokens}
use monty_server.Config.Env.{Vars, max_u32, env_str}
use monty_server.Config.Tokens.{entry_of, read_entries, auth_of, load_auth}

-- An entry in one of the three forms; the rate is a text and the number that it stands for.
pub data Entry : Type 0 where
  bare : (secret : String) → Entry
  labelled : (label secret : String) → Entry
  rated : (label secret rpm : String) → (per_minute : ℕ) → Entry

-- A text with a colon and another text behind it.
abbrev pub with_colon : String → String → String
with_colon s u = str_append s (String.◌∷◌ ":" u)

unfoldable pub write : Entry → String
write (bare secret) = secret
write (labelled label secret) = with_colon label secret
write (rated label secret rpm per_minute) = with_colon label (with_colon secret rpm)

unfoldable pub secret_of : Entry → String
secret_of (bare secret) = secret
secret_of (labelled label secret) = secret
secret_of (rated label secret rpm per_minute) = secret

unfoldable pub principal_of : (default_rate : RateRule) → Entry → Principal
principal_of default_rate (bare secret) = record { name = secret; rate = default_rate }
principal_of default_rate (labelled label secret) = record { name = label; rate = default_rate }
principal_of default_rate (rated label secret rpm per_minute) = record {
  name = label;
  rate = rate_rule per_minute;
}

abbrev HasNoColon : String → Type 0
HasNoColon s = split_once 58 s ≡ none

-- The parts have no colon, and the rate is read as its number.
abbrev pub IsClean : Entry → Type 0
IsClean (bare secret) = HasNoColon secret
IsClean (labelled label secret) = HasNoColon label × HasNoColon secret
IsClean (rated label secret rpm per_minute) =
    HasNoColon label
    × HasNoColon secret
    × HasNoColon rpm
    × (parse_unsigned max_u32 rpm ≡ ok per_minute)

-- An entry with the text around it.
pub record Line : Type 0 where
  pub raw : String
  pub entry : Entry

-- The text is the entry, which is not empty, with white space around it, and has no comma.
pub record IsWritten (l : Line) : Type 0 where
  pub one : split_once 44 l.raw ≡ none
  pub written : trim l.raw ≡ write l.entry
  pub filled : is_empty (write l.entry) ≡ false
  pub clean : IsClean l.entry

unfoldable pub write_lines : Line → List Line → String
write_lines l [] = l.raw
write_lines l (m ∷ ms) = str_append l.raw (String.◌∷◌ "," (write_lines m ms))

-- The principal that a list of entries gives a token: that of its last entry.
unfoldable pub last_principal : (default_rate : RateRule) → String → List Line → Option Principal
unfolding secret_of principal_of
last_principal default_rate secret [] = none
last_principal default_rate secret (l ∷ ls) = elim (last_principal default_rate secret ls) [
  | some p ↦ some p
  | none ↦
      if str_eq (secret_of l.entry) secret then some (principal_of default_rate l.entry) else none
]

split-write_lines :
    (l : Line) (ls : List Line)
    → IsWritten l
    → All IsWritten ls
    → split 44 (write_lines l ls) ≡ l.raw ∷ map (λ m. m.raw) ls
unfolding write_lines
split-write_lines l [] h hs = split-whole 44 l.raw h.one
split-write_lines l (m ∷ ms) h hs =
    split-append "," l.raw (write_lines m ms) h.one
    ∙ ap (λ parts. l.raw ∷ parts) (split-write_lines m ms hs.0 hs.1)

split-write_entry :
    (default_rate : RateRule) (e : Entry)
    → IsClean e
    → entry_of default_rate (write e) (split 58 (write e))
      ≡ ok (secret_of e, principal_of default_rate e)
unfolding write entry_of secret_of principal_of
split-write_entry default_rate (bare secret) h = simp (split-whole 58 secret h)
split-write_entry default_rate (labelled label secret) h =
    simp (split-append ":" label secret h.0, split-whole 58 secret h.1)
split-write_entry default_rate (rated label secret rpm per_minute) (a, b, c, d) = simp (
  split-append ":" label (with_colon secret rpm) a,
  split-append ":" secret rpm b,
  split-whole 58 rpm c,
  d,
)

-- The table after the loop.
table_of :
    (default_rate : RateRule) → List Line → List (String × Principal) → List (String × Principal)
table_of default_rate [] table = table
table_of default_rate (l ∷ ls) table =
    table_of default_rate ls (insert (secret_of l.entry) (principal_of default_rate l.entry) table)

read_entries-write :
    (default_rate : RateRule) (ls : List Line) (table : List (String × Principal))
    → All IsWritten ls
    → read_entries default_rate (map (λ m. m.raw) ls) table ≡ ok (table_of default_rate ls table)
unfolding read_entries table_of
read_entries-write default_rate [] table h = refl
read_entries-write default_rate (l ∷ ls) table (h, hs) =
    rw
      (read_entries, h.written, h.filled, h.written, split-write_entry default_rate l.entry h.clean)
      (read_entries-write default_rate ls _ hs)

lookup-table_of :
    (default_rate : RateRule) (secret : String) (ls : List Line) (table : List (String × Principal))
    → lookup secret (table_of default_rate ls table)
      ≡ (elim (last_principal default_rate secret ls) [
        | some p ↦ some p
        | none ↦ lookup secret table
      ])
unfolding table_of last_principal
lookup-table_of default_rate secret [] table = refl
lookup-table_of default_rate secret (l ∷ ls) table = ground (
  arith,
  lookup-table_of default_rate secret ls
      (insert (secret_of l.entry) (principal_of default_rate l.entry) table),
  lookup-insert (secret_of l.entry) secret (principal_of default_rate l.entry) table,
  last_principal default_rate secret ls,
)

auth_of-table_of :
    (default_rate : RateRule) (ls : List Line) (added : String × Principal)
    (table : List (String × Principal))
    → auth_of (table_of default_rate ls (added ∷ table))
      ≡ tokens (table_of default_rate ls (added ∷ table))
unfolding table_of insert
auth_of-table_of default_rate [] added table = refl
auth_of-table_of default_rate (l ∷ ls) added table = auth_of-table_of default_rate ls _ _

auth_of-read :
    (default_rate : RateRule) (l : Line) (ls : List Line)
    → auth_of (table_of default_rate (l ∷ ls) []) ≡ tokens (table_of default_rate (l ∷ ls) [])
unfolding table_of insert
auth_of-read default_rate l ls =
    auth_of-table_of default_rate ls (secret_of l.entry, principal_of default_rate l.entry) _

write_lines-filled :
    (l : Line) (ls : List Line) → IsWritten l → is_empty (trim (write_lines l ls)) ≡ false
unfolding write_lines
write_lines-filled l [] h = rw (h.written) h.filled
write_lines-filled l (m ∷ ms) h = ground (
  arith,
  is_empty-trim (str_append l.raw (String.◌∷◌ "," (write_lines m ms))),
  is_blank-append l.raw (String.◌∷◌ "," (write_lines m ms)),
  is_empty-trim l.raw,
  h.written,
  h.filled,
)

-- If `MONTY_API_TOKENS` is a list of at least one entry, with commas between, each of the form
-- token, name:token or name:token:rate, not empty, with any white space around it, no comma in it,
-- no colon in its parts and a rate that reads as a number of 32 bits, then `load_auth` returns a
-- table of tokens, in which every text has the principal of the last entry with that token, with
-- that entry's rate or the default one, and none if there is no such entry.
pub load_auth-write_lines :
    (vars : Vars) (default_rate : RateRule) (l : Line) (ls : List Line)
    → vars "MONTY_API_TOKENS" ≡ some (write_lines l ls)
    → IsWritten l
    → All IsWritten ls
    → (known : List (String × Principal)) × (load_auth vars default_rate ≡ ok (tokens known))
      × ((secret : String) → lookup secret known ≡ last_principal default_rate secret (l ∷ ls))
unfolding load_auth env_str lookup
load_auth-write_lines vars default_rate l ls h first rest = (
  table_of default_rate (l ∷ ls) [],
  rw
      (
        load_auth,
        env_str,
        h,
        write_lines-filled l ls first,
        split-write_lines l ls first rest,
        read_entries-write default_rate (l ∷ ls) [] (first, rest),
      )
      (ap ok (auth_of-read default_rate l ls)),
  λ secret. ground (
    arith,
    lookup-table_of default_rate secret (l ∷ ls) [],
    last_principal default_rate secret (l ∷ ls),
  ),
)
