-- ===== src/Api/Sessions/Rendering.antt =====
-- `render` (src/api/sessions.rs) while a resume is in flight.
use monty_server.Common.{ℕ, ◌≡◌, refl, true, not, none, err, ◌∙◌, ap}
use monty_server.Error.{internal}
use monty_server.External.{Types, Externals}
use monty_server.Session.{SessionEntry, StepSnapshot}
use monty_server.Session.Entries.{IsBusy, IsConsistent, is_paused}
use monty_server.Api.Sessions.View.{render, render_state}

module _ {x : Types} (m : Externals x) where
  render_state_taken :
      (snapshot : StepSnapshot x)
      → is_paused snapshot ≡ true
      → render_state m snapshot none ≡ err internal
  unfolding render_state
  render_state_taken (StepSnapshot.paused o s) h = refl
  render_state_taken (StepSnapshot.completed r o s) h = cc
  render_state_taken (StepSnapshot.failed e b o s) h = cc

  -- For an entry whose resume is in flight and whose snapshot agrees with its terminal flag, every
  -- reading of the session's state ends in the internal error.
  pub render_busy :
      (id now : ℕ) (e : SessionEntry x)
      → IsBusy e
      → IsConsistent e
      → render m id now e ≡ err internal
  unfolding render
  render_busy id now e b h =
      rw (render, b.taken, render_state_taken e.snapshot (h.shown ∙ ap not b.alive))
