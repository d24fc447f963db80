-- ===== src/Engine/Streams.antt =====
-- `join_streams` (src/engine.rs), one stream at a time.
use Prim.Native.String.{◌++◌ as str_append}
use text.Mathlib.TextLemmas.{append-nil, append_assoc, nil-append}
use monty_server.Common.{String, ◌≡◌, ◌∙◌, List, [], ◌∷◌}
use monty_server.External.{PrintStream, stdout, stderr}
use monty_server.Engine.{Output, push_fragment, join_onto, join_streams}

-- The text of one fragment, if it is of the stream.
abbrev of_stream : PrintStream → PrintStream × String → String
of_stream stdout (stdout, text) = text
of_stream stdout (stderr, text) = ""
of_stream stderr (stdout, text) = ""
of_stream stderr (stderr, text) = text

-- All that was printed on a stream.
unfoldable pub printed_on : PrintStream → List (PrintStream × String) → String
printed_on stream [] = ""
printed_on stream (f ∷ fs) = str_append (of_stream stream f) (printed_on stream fs)

join_onto-printed :
    (o : Output) (fs : List (PrintStream × String))
    → join_onto o fs ≡ record {
      stdout = str_append o.stdout (printed_on stdout fs);
      stderr = str_append o.stderr (printed_on stderr fs);
    }
unfolding join_onto push_fragment printed_on
join_onto-printed o [] = simp (append-nil)
join_onto-printed o ((stdout, text) ∷ fs) =
    join_onto-printed (push_fragment o (stdout, text)) fs ∙ simp (append_assoc, nil-append)
join_onto-printed o ((stderr, text) ∷ fs) =
    join_onto-printed (push_fragment o (stderr, text)) fs ∙ simp (append_assoc, nil-append)

-- The two texts that `join_streams` makes are those of the fragments of each stream, each in the
-- order in which they were printed.
pub join_streams-printed :
    (fs : List (PrintStream × String))
    → join_streams fs ≡ record { stdout = printed_on stdout fs; stderr = printed_on stderr fs }
unfolding join_streams
join_streams-printed fs = join_onto-printed _ fs ∙ simp nil-append
