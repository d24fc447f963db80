-- ===== src/Api/Sessions/Inputs/Alone.antt =====
-- The one action in a body that `ResumeRequest::into_input` (src/api/sessions.rs) accepts.
use monty_server.Common.{
  arith, ◌≢◌, subst, ℕ, String, ◌≡◌, refl, Bool, true, false, Option, none, some, [], ◌∷◌, ok,
}
use monty_server.External.{Types, Externals}
use monty_server.Engine.{ResumeInput}
use monty_server.Api.Sessions.Requests.{
  ResumeRequest, into_input, count_set, flags, is_some, is_some_true,
}
use monty_server.Api.Sessions.Inputs.{IsAnswer, IsFair, into_input-IsFair, into_input-counted}

unset : {A : Type 0} {o : Option A} → is_some o ≡ false → o ≡ none
unset {o = none} h = refl
unset {o = some a} h = cc

unset_true : {o : Option Bool} → is_some_true o ≡ false → o ≢ some true
unset_true h e = let p = subst (λ o. is_some_true o ≡ false) e h in cc

-- Of six flags of which one is set, no other is.
alone :
    (a b c d e f : Bool)
    → count_set (a ∷ b ∷ c ∷ d ∷ e ∷ f ∷ []) ≡ 1
    → (a ≡ true → (b ≡ false) × (c ≡ false) × (d ≡ false) × (e ≡ false) × (f ≡ false))
      × (b ≡ true → (a ≡ false) × (c ≡ false) × (d ≡ false) × (e ≡ false) × (f ≡ false))
      × (c ≡ true → (a ≡ false) × (b ≡ false) × (d ≡ false) × (e ≡ false) × (f ≡ false))
      × (d ≡ true → (a ≡ false) × (b ≡ false) × (c ≡ false) × (e ≡ false) × (f ≡ false))
      × (e ≡ true → (a ≡ false) × (b ≡ false) × (c ≡ false) × (d ≡ false) × (f ≡ false))
      × (f ≡ true → (a ≡ false) × (b ≡ false) × (c ≡ false) × (d ≡ false) × (e ≡ false))
unfolding count_set
alone a b c d e f h = ground arith

module _ {x : Types} where
  -- No other field of the request sets an action than that of the input.
  pub IsAlone : ResumeRequest x → ResumeInput x → Type 0
  IsAlone r (ResumeInput.return _) =
      (r.exception ≡ none)
      × (r.pending ≢ some true)
      × (r.value ≡ none)
      × (r.undefined ≢ some true)
      × (r.futures ≡ none)
  IsAlone r (ResumeInput.raise _) =
      (r.return_value ≡ none)
      × (r.pending ≢ some true)
      × (r.value ≡ none)
      × (r.undefined ≢ some true)
      × (r.futures ≡ none)
  IsAlone r ResumeInput.pending =
      (r.return_value ≡ none)
      × (r.exception ≡ none)
      × (r.value ≡ none)
      × (r.undefined ≢ some true)
      × (r.futures ≡ none)
  IsAlone r (ResumeInput.name _) =
      (r.return_value ≡ none)
      × (r.exception ≡ none)
      × (r.pending ≢ some true)
      × (r.undefined ≢ some true)
      × (r.futures ≡ none)
  IsAlone r ResumeInput.name_undefined =
      (r.return_value ≡ none)
      × (r.exception ≡ none)
      × (r.pending ≢ some true)
      × (r.value ≡ none)
      × (r.futures ≡ none)
  IsAlone r (ResumeInput.futures _) =
      (r.return_value ≡ none)
      × (r.exception ≡ none)
      × (r.pending ≢ some true)
      × (r.value ≡ none)
      × (r.undefined ≢ some true)

module _ {x : Types} (m : Externals x) (show : ℕ → String) (r : ResumeRequest x) where
  answer-IsAlone :
      (input : ResumeInput x)
      → count_set (flags m r) ≡ 1
      → IsAnswer m show r input
      → IsAlone r input
  unfolding IsAnswer IsAlone flags
  answer-IsAlone (ResumeInput.return o) h (v, e, _) =
      let (b, c, d, f, g) = (alone _ _ _ _ _ _ h).0 (rw e refl) in
      (unset b, unset_true c, unset d, unset_true f, unset g)
  answer-IsAlone (ResumeInput.raise i) h (v, e, _) =
      let (a, c, d, f, g) = (alone _ _ _ _ _ _ h).1 (rw e refl) in
      (unset a, unset_true c, unset d, unset_true f, unset g)
  answer-IsAlone ResumeInput.pending h e =
      let (a, b, d, f, g) = (alone _ _ _ _ _ _ h).2 (rw e refl) in
      (unset a, unset b, unset d, unset_true f, unset g)
  answer-IsAlone (ResumeInput.name o) h (v, e, _) =
      let (a, b, c, f, g) = (alone _ _ _ _ _ _ h).3 (rw e refl) in
      (unset a, unset b, unset_true c, unset_true f, unset g)
  answer-IsAlone ResumeInput.name_undefined h e =
      let (a, b, c, d, g) = (alone _ _ _ _ _ _ h).4 (rw e refl) in
      (unset a, unset b, unset_true c, unset d, unset g)
  answer-IsAlone (ResumeInput.futures outcomes) h (fs, e, _) =
      let (a, b, c, d, f) = (alone _ _ _ _ _ _ h).5 (rw e refl) in
      (unset a, unset b, unset_true c, unset d, unset_true f)

  -- If the body of a resume is accepted, the input is the translation of one of its fields, and no
  -- other field sets an action: each of `return`, `exception`, `value` and `futures` is absent, and
  -- `pending` and `undefined` are not `true`, but for the one that is translated.
  pub into_input-eq-ok :
      (input : ResumeInput x)
      → into_input m show r ≡ ok input
      → IsAnswer m show r input × IsAlone r input
  unfolding IsFair
  into_input-eq-ok input h =
      let answer = subst (IsFair m show r) h (into_input-IsFair m show r) in
      (answer, answer-IsAlone input (into_input-counted m show r h) answer)
