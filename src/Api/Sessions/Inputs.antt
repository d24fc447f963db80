-- ===== src/Api/Sessions/Inputs.antt =====
-- Which bodies `ResumeRequest::into_input` (src/api/sessions.rs) accepts, and how it refuses.
pub mod Alone
use monty_server.Common.{
  ==_iff, subst, if◌then◌else◌, ℕ, String, ◌≡◌, refl, Bool, true, false, Option, none, some, List,
  [], ◌∷◌, Result, ok, err, ◌>>=◌, map_err, ◌==◌,
}
use monty_server.Error.{internal, ApiError, ApiResult, bad_request}
use monty_server.External.{Types, Externals, Value, Object}
use monty_server.Convert.{ConvertError, json_to_monty, exception_from_parts}
use monty_server.Engine.{ResumeInput}
use monty_server.Api.Sessions.Requests.{
  ResumeRequest, FutureInput, ExceptionInput, into_exception, into_outcome, into_outcomes,
  into_input, bad_value, from_futures, from_value, from_exception, from_return, from_flag,
  count_set, flags, outcome_of, is_some, is_some_true, one_action,
}

-- The client is to blame.
abbrev pub IsBadRequest : ApiError → Type 0
IsBadRequest (bad_request _) = Unit
IsBadRequest _ = ⊥

-- Every error of `r` is a bad request.
abbrev IsRefusal : {A : Type 0} → ApiResult A → Type 0
IsRefusal (ok _) = Unit
IsRefusal (err e) = IsBadRequest e

module _ {A B : Type 0} where
  >>=-IsRefusal :
      (r : ApiResult A) (f : A → ApiResult B)
      → IsRefusal r
      → ((a : A) → IsRefusal (f a))
      → IsRefusal (r >>= f)
  >>=-IsRefusal (ok a) f h g = g a
  >>=-IsRefusal (err e) f h g = h

  map_err-IsRefusal :
      (r : Result A B) (f : B → ApiError) → ((e : B) → IsBadRequest (f e)) → IsRefusal (map_err f r)
  map_err-IsRefusal (ok a) f h = tt
  map_err-IsRefusal (err e) f h = h e

module _ {x : Types} (m : Externals x) where
  value-IsRefusal : (v : Value x) → IsRefusal (map_err bad_value (json_to_monty m v))
  unfolding bad_value
  value-IsRefusal v = map_err-IsRefusal (json_to_monty m v) bad_value (λ _. tt)

  into_exception-IsRefusal : (e : ExceptionInput) → IsRefusal (into_exception m e)
  unfolding into_exception
  into_exception-IsRefusal e =
      map_err-IsRefusal (exception_from_parts m e.exc_type e.message) _ (λ _. tt)

  outcome_of-IsRefusal :
      (call_id : ℕ) (number : String) (v : Option (Value x)) (e : Option ExceptionInput)
      → IsRefusal (outcome_of m call_id number v e)
  unfolding outcome_of
  outcome_of-IsRefusal call_id number (some v) none =
      >>=-IsRefusal _ _ (value-IsRefusal v) (λ _. tt)
  outcome_of-IsRefusal call_id number none (some e) =
      >>=-IsRefusal _ _ (into_exception-IsRefusal e) (λ _. tt)
  outcome_of-IsRefusal call_id number (some v) (some e) = tt
  outcome_of-IsRefusal call_id number none none = tt

  into_outcomes-IsRefusal :
      (show : ℕ → String) (fs : List (FutureInput x)) → IsRefusal (into_outcomes m show fs)
  unfolding into_outcomes into_outcome
  into_outcomes-IsRefusal show [] = tt
  into_outcomes-IsRefusal show (f ∷ fs) =
      >>=-IsRefusal _ _ (outcome_of-IsRefusal f.call_id _ f.return_value f.exception)
        (λ _. >>=-IsRefusal _ _ (into_outcomes-IsRefusal show fs) (λ _. tt))

  -- the field of the request that an input comes from, with its translation
  pub IsAnswer : (show : ℕ → String) → ResumeRequest x → ResumeInput x → Type 0
  IsAnswer show r (ResumeInput.return o) =
      (v : Value x) × (r.return_value ≡ some v) × (json_to_monty m v ≡ ok o)
  IsAnswer show r (ResumeInput.raise e) =
      (i : ExceptionInput) × (r.exception ≡ some i) × (into_exception m i ≡ ok e)
  IsAnswer show r ResumeInput.pending = r.pending ≡ some true
  IsAnswer show r (ResumeInput.name o) =
      (v : Value x) × (r.value ≡ some v) × (json_to_monty m v ≡ ok o)
  IsAnswer show r ResumeInput.name_undefined = r.undefined ≡ some true
  IsAnswer show r (ResumeInput.futures outcomes) =
      (fs : List (FutureInput x)) × (r.futures ≡ some fs) × (into_outcomes m show fs ≡ ok outcomes)

  -- What one `if` of `into_input` may give.
  IsFair : (show : ℕ → String) → ResumeRequest x → ApiResult (ResumeInput x) → Type 0
  IsFair show r (ok input) = IsAnswer show r input
  IsFair show r (err e) = IsBadRequest e

  module _ (show : ℕ → String) (r : ResumeRequest x) where
    >>=-IsFair :
        {A : Type 0} (a : ApiResult A) (f : A → ApiResult (ResumeInput x))
        → IsRefusal a
        → ((v : A) → a ≡ ok v → IsFair show r (f v))
        → IsFair show r (a >>= f)
    unfolding IsFair
    >>=-IsFair (ok v) f h g = g v refl
    >>=-IsFair (err e) f h g = h

    value-ok :
        (v : Value x) {o : Object x}
        → map_err bad_value (json_to_monty m v) ≡ ok o
        → json_to_monty m v ≡ ok o
    value-ok v h = go (json_to_monty m v) h
      where
        go :
            (c : Result (Object x) ConvertError) {o : Object x}
            → map_err bad_value c ≡ ok o
            → c ≡ ok o
        go (ok a) h = cc
        go (err e) h = cc

    return-IsFair :
        (v : Value x)
        → r.return_value ≡ some v
        → (rest : ApiResult (ResumeInput x)) → IsFair show r (from_return m (some v) rest)
    unfolding from_return IsFair IsAnswer
    return-IsFair v e rest = >>=-IsFair _ _ (value-IsRefusal v) (λ o h. (v, e, value-ok v h))

    exception-IsFair :
        (i : ExceptionInput)
        → r.exception ≡ some i
        → (rest : ApiResult (ResumeInput x)) → IsFair show r (from_exception m (some i) rest)
    unfolding from_exception IsFair IsAnswer
    exception-IsFair i e rest = >>=-IsFair _ _ (into_exception-IsRefusal i) (λ o h. (i, e, h))

    value-IsFair :
        (v : Value x)
        → r.value ≡ some v
        → (rest : ApiResult (ResumeInput x)) → IsFair show r (from_value m (some v) rest)
    unfolding from_value IsFair IsAnswer
    value-IsFair v e rest = >>=-IsFair _ _ (value-IsRefusal v) (λ o h. (v, e, value-ok v h))

    futures-IsFair :
        (fs : List (FutureInput x))
        → r.futures ≡ some fs
        → IsFair show r (from_futures m show (some fs))
    unfolding from_futures IsFair IsAnswer
    futures-IsFair fs e = >>=-IsFair _ _ (into_outcomes-IsRefusal show fs) (λ o h. (fs, e, h))

    if-IsFair :
        (b : Bool) (a : ApiResult (ResumeInput x))
        → (b ≡ true → IsFair show r a)
        → IsFair show r (if b then a else err (bad_request one_action))
    unfolding IsFair
    if-IsFair true a h = h refl
    if-IsFair false a h = tt

    is_some_true-eq : (o : Option Bool) → is_some_true o ≡ true → o ≡ some true
    is_some_true-eq (some true) h = refl
    is_some_true-eq (some false) h = cc
    is_some_true-eq none h = cc

    -- The first field that is set gives the input; the count rules out that none is.
    chosen-IsFair :
        (a : Option (Value x)) (b : Option ExceptionInput) (c : Bool) (d : Option (Value x))
        (e : Bool) (f : Option (List (FutureInput x)))
        → r.return_value ≡ a
        → r.exception ≡ b
        → is_some_true r.pending ≡ c
        → r.value ≡ d
        → is_some_true r.undefined ≡ e
        → r.futures ≡ f
        → IsFair show r (
            if count_set (is_some a ∷ is_some b ∷ c ∷ is_some d ∷ e ∷ is_some f ∷ []) == 1
            then from_return m a (
                from_exception m b (
                  from_flag m c ResumeInput.pending (
                    from_value m d
                      (from_flag m e ResumeInput.name_undefined (from_futures m show f)))))
            else err (bad_request one_action))
    unfolding from_return from_exception from_flag from_value from_futures count_set IsFair IsAnswer
    chosen-IsFair (some v) b c d e f ra rb rc rd re rf =
        if-IsFair _ _ (λ _. return-IsFair v ra (err internal))
    chosen-IsFair none (some i) c d e f ra rb rc rd re rf =
        if-IsFair _ _ (λ _. exception-IsFair i rb (err internal))
    chosen-IsFair none none true d e f ra rb rc rd re rf =
        if-IsFair (count_set (false ∷ false ∷ true ∷ is_some d ∷ e ∷ is_some f ∷ []) == 1)
          (ok ResumeInput.pending) (λ _. is_some_true-eq r.pending rc)
    chosen-IsFair none none false (some v) e f ra rb rc rd re rf =
        if-IsFair _ _ (λ _. value-IsFair v rd (err internal))
    chosen-IsFair none none false none true f ra rb rc rd re rf =
        if-IsFair (count_set (false ∷ false ∷ false ∷ false ∷ true ∷ is_some f ∷ []) == 1)
          (ok ResumeInput.name_undefined) (λ _. is_some_true-eq r.undefined re)
    chosen-IsFair none none false none false (some fs) ra rb rc rd re rf = futures-IsFair fs rf
    chosen-IsFair none none false none false none ra rb rc rd re rf = tt

    if-eq-ok :
        (b : Bool) (a : ApiResult (ResumeInput x)) {input : ResumeInput x}
        → (if b then a else err (bad_request one_action)) ≡ ok input
        → b ≡ true
    if-eq-ok true a h = refl
    if-eq-ok false a h = cc

    into_input-IsFair : IsFair show r (into_input m show r)
    unfolding into_input flags
    into_input-IsFair = chosen-IsFair _ _ _ _ _ _ refl refl refl refl refl refl

    into_input-counted :
        {input : ResumeInput x} → into_input m show r ≡ ok input → count_set (flags m r) ≡ 1
    unfolding into_input
    into_input-counted h = (==_iff _ 1).0 (if-eq-ok (count_set (flags m r) == 1) _ h)

    -- Every refusal of the body of a resume is a bad request: the internal error at the end of
    -- `into_input` is never reached.
    pub into_input-eq-err : (e : ApiError) → into_input m show r ≡ err e → IsBadRequest e
    unfolding IsFair
    into_input-eq-err e h = subst (IsFair show r) h into_input-IsFair
