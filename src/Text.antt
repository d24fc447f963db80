-- ===== src/Text.antt =====
-- What the server uses of Rust's `str`: texts are taken character by character.
pub mod Splitting
use mathlib.Core.Option
use Prim.Native.Char.{Char, code}
use monty_server.Common.{
  ℕ, suc, ◌+◌, ◌*◌, ◌-◌, ◌^◌, String, Bool, true, false, ◌&&◌, ◌||◌, Option, none, some, List, [],
  ◌∷◌, Result, ok, err, leb, ◌==◌, if◌then◌else◌,
}

-- `char::is_whitespace`, the property `White_Space` of Unicode
unfoldable pub is_space : Char → Bool
is_space c =
    (leb 9 (code c) && leb (code c) 13)
    || (code c == 32)
    || (code c == 0x85)
    || (code c == 0xa0)
    || (code c == 0x1680)
    || (leb 0x2000 (code c) && leb (code c) 0x200a)
    || (code c == 0x2028)
    || (code c == 0x2029)
    || (code c == 0x202f)
    || (code c == 0x205f)
    || (code c == 0x3000)

abbrev pub is_empty : String → Bool
is_empty String.[] = true
is_empty (String.◌∷◌ c s) = false

unfoldable pub trim_end : String → String
unfolding is_space
trim_end String.[] = String.[]
trim_end (String.◌∷◌ c s) =
    let rest : String = trim_end s in
    if is_empty rest && is_space c then String.[] else String.◌∷◌ c rest

unfoldable pub trim_start : String → String
unfolding is_space
trim_start String.[] = String.[]
trim_start (String.◌∷◌ c s) =
    let rest : String = trim_start s in if is_space c then rest else String.◌∷◌ c s

-- `str::trim`
unfoldable pub trim : String → String
unfolding trim_start trim_end
trim s = trim_end (trim_start s)

-- `str::split_once`, at a character given by its code
unfoldable pub split_once : ℕ → String → Option (String × String)
split_once sep String.[] = none
split_once sep (String.◌∷◌ c s) =
    let rest = split_once sep s in
    if code c == sep
    then some (String.[], s)
    else Option.map (λ (p : String × String). (String.◌∷◌ c p.0, p.1)) rest

-- The first part of `str::split`, and the text behind the separator after it.
abbrev pub onto_head : Char → List String → List String
onto_head c [] = String.◌∷◌ c String.[] ∷ []
onto_head c (p ∷ ps) = String.◌∷◌ c p ∷ ps

-- `str::split`, at a character
unfoldable pub split : ℕ → String → List String
split sep String.[] = String.[] ∷ []
split sep (String.◌∷◌ c s) =
    let rest : List String = split sep s in
    if code c == sep then String.[] ∷ rest else onto_head c rest

-- `split(…).next()`
unfoldable pub head_of_split : ℕ → String → String
head_of_split sep String.[] = String.[]
head_of_split sep (String.◌∷◌ c s) =
    let rest : String = head_of_split sep s in
    if code c == sep then String.[] else String.◌∷◌ c rest

abbrev pub lower : Char → ℕ
lower c = if leb 65 (code c) && leb (code c) 90 then code c + 32 else code c

-- `eq_ignore_ascii_case`
unfoldable pub same_ignoring_case : String → String → Bool
same_ignoring_case String.[] String.[] = true
same_ignoring_case (String.◌∷◌ c s) (String.◌∷◌ d u) =
    let rest : Bool = same_ignoring_case s u in (lower c == lower d) && rest
same_ignoring_case _ _ = false

-- `IntErrorKind`, for unsigned integers
pub data IntError : Type 0 where
  empty invalid_digit pos_overflow : IntError

-- The digits of `from_str`, behind the number read so far; `max_value` is that of the type.
unfoldable pub read_digits : (max_value : ℕ) → ℕ → String → Result ℕ IntError
read_digits max_value n String.[] = ok n
read_digits max_value n (String.◌∷◌ c s) =
    let next : ℕ = n * 10 + (code c - 48) in
    let rest = read_digits max_value next s in
    if leb 48 (code c) && leb (code c) 57
    then (if leb next max_value then rest else err pos_overflow)
    else err invalid_digit

-- `from_str` of an unsigned integer: digits, with a `+` before them or not
unfoldable pub parse_unsigned : (max_value : ℕ) → String → Result ℕ IntError
unfolding read_digits
parse_unsigned max_value String.[] = err empty
parse_unsigned max_value (String.◌∷◌ c String.[]) = read_digits max_value 0 (String.◌∷◌ c String.[])
parse_unsigned max_value (String.◌∷◌ c (String.◌∷◌ d s)) =
    if code c == 43
    then read_digits max_value 0 (String.◌∷◌ d s)
    else read_digits max_value 0 (String.◌∷◌ c (String.◌∷◌ d s))
