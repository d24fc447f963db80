-- ===== src/Text/Splitting.antt =====
-- How trimming and splitting of texts act on texts that are put together.
use Prim.Native.Char.{Char, code}
use Prim.Native.String.{◌++◌ as str_append}
use Prim.Native.String.append
use monty_server.Common.{ℕ, ◌≡◌, refl, String, Bool, true, ◌&&◌, none, [], ◌∷◌, arith}
use monty_server.Text.{is_space, is_empty, trim, trim_start, trim_end, split, split_once}

-- Nothing but white space.
unfoldable pub is_blank : String → Bool
is_blank String.[] = true
is_blank (String.◌∷◌ c s) = is_space c && is_blank s

is_empty-trim_end : (s : String) → is_empty (trim_end s) ≡ is_blank s
unfolding trim_end is_blank
is_empty-trim_end String.[] = refl
is_empty-trim_end (String.◌∷◌ c s) = ground (arith, is_empty-trim_end s, is_space c)

is_blank-trim_start : (s : String) → is_blank (trim_start s) ≡ is_blank s
unfolding trim_start is_blank
is_blank-trim_start String.[] = refl
is_blank-trim_start (String.◌∷◌ c s) = ground (arith, is_blank-trim_start s, is_space c)

pub is_empty-trim : (s : String) → is_empty (trim s) ≡ is_blank s
unfolding trim
is_empty-trim s = ground (arith, is_empty-trim_end (trim_start s), is_blank-trim_start s)

pub is_blank-append : (s u : String) → is_blank (str_append s u) ≡ (is_blank s && is_blank u)
unfolding is_blank
is_blank-append String.[] u = rw (append.nil u) refl
is_blank-append (String.◌∷◌ c s) u =
    rw (append.cons c s u) (ground (arith, is_blank-append s u, is_space c))

-- A text without the separator is one part.
pub split-whole : (sep : ℕ) (s : String) → split_once sep s ≡ none → split sep s ≡ s ∷ []
unfolding split split_once
split-whole sep String.[] h = refl
split-whole sep (String.◌∷◌ c s) h = ground (arith, h, split-whole sep s, split_once sep s)

-- A text without the separator, before a separator, is the first part.
pub split-append :
    (d : Char) (s u : String)
    → split_once (code d) s ≡ none
    → split (code d) (str_append s (String.◌∷◌ d u)) ≡ s ∷ split (code d) u
unfolding split split_once
split-append d String.[] u h = rw (append.nil (String.◌∷◌ d u)) (ground arith)
split-append d (String.◌∷◌ c s) u h =
    rw (append.cons c s (String.◌∷◌ d u))
      (ground (arith, h, split-append d s u, split_once (code d) s))
