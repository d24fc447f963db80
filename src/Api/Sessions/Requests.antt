-- ===== src/Api/Sessions/Requests.antt =====
-- src/api/sessions.rs: the bodies of requests, and the input of a resume that they stand for.
use Prim.Native.String.{◌++◌ as str_append}
use monty_server.Common.{
  ℕ, suc, String, Bool, true, false, Option, none, some, List, [], ◌∷◌, ok, err, ◌>>=◌, map_err,
  ◌==◌, min, if◌then◌else◌,
}
use monty_server.Error.{ApiError, ApiResult, bad_request, internal}
use monty_server.Config.{SessionConfig}
use monty_server.Limits.{from_secs}
use monty_server.External.{Types, Externals, Value}
use monty_server.Convert.{ConvertError, json_to_monty, exception_from_parts}
use monty_server.Engine.{ResumeInput, FutureOutcome}
use monty_server.Api.Dto.{SourceFields}

-- `CreateSessionRequest`
pub record CreateSessionRequest (x : Types) : Type 0 where
  pub source : SourceFields x
  pub ttl_seconds : Option ℕ

-- `ExceptionInput`
pub record ExceptionInput : Type 0 where
  pub exc_type : String
  pub message : Option String

-- `FutureInput`
pub record FutureInput (x : Types) : Type 0 where
  pub call_id : ℕ
  pub return_value : Option (Value x)
  pub exception : Option ExceptionInput

-- `ResumeRequest`
pub record ResumeRequest (x : Types) : Type 0 where
  pub return_value : Option (Value x)
  pub exception : Option ExceptionInput
  pub pending : Option Bool
  pub value : Option (Value x)
  pub undefined : Option Bool
  pub futures : Option (List (FutureInput x))

-- `Option::is_some`, and the test against `Some(true)`
abbrev pub is_some : {A : Type 0} → Option A → Bool
is_some none = false
is_some (some _) = true

abbrev pub is_some_true : Option Bool → Bool
is_some_true (some true) = true
is_some_true _ = false

-- `.filter(|s| **s).count()`
unfoldable pub count_set : List Bool → ℕ
count_set [] = 0
count_set (b ∷ bs) = let rest = count_set bs in if b then suc rest else rest

-- `bad_value`
unfoldable pub bad_value : ConvertError → ApiError
bad_value e = bad_request (str_append "invalid value: " e)

abbrev pub one_action : String
one_action =
    "resume body must set exactly one of: `return`, `exception`, `pending`, `value`, `undefined`, `futures`"

-- `resolve_ttl`
unfoldable pub resolve_ttl : Option ℕ → SessionConfig → ℕ
resolve_ttl none config = min config.default_ttl config.max_ttl
resolve_ttl (some requested) config = min (from_secs requested) config.max_ttl

module _ {x : Types} (m : Externals x) where
  -- `ExceptionInput::into_exception`
  unfoldable pub into_exception : ExceptionInput → ApiResult x.Exception
  into_exception e = map_err bad_request (exception_from_parts m e.exc_type e.message)

  unfoldable pub outcome_of :
      ℕ → String → Option (Value x) → Option ExceptionInput → ApiResult (ℕ × FutureOutcome x)
  unfolding into_exception bad_value
  outcome_of call_id number (some value) none = do
    v ← map_err bad_value (json_to_monty m value)
    ok (call_id, FutureOutcome.return v)
  outcome_of call_id number none (some exc) = do
    e ← into_exception exc
    ok (call_id, FutureOutcome.raise e)
  outcome_of call_id number _ _ = err (
      bad_request (
        str_append "future "
          (str_append number " must set exactly one of `return` or `exception`")))

  -- `FutureInput::into_outcome`; `show` prints a `u32`.
  unfoldable pub into_outcome :
      (show : ℕ → String) → FutureInput x → ApiResult (ℕ × FutureOutcome x)
  unfolding outcome_of
  into_outcome show f = outcome_of f.call_id (show f.call_id) f.return_value f.exception

  -- `collect::<ApiResult<Vec<_>>>()`
  unfoldable pub into_outcomes :
      (show : ℕ → String) → List (FutureInput x) → ApiResult (List (ℕ × FutureOutcome x))
  into_outcomes show [] = ok []
  into_outcomes show (f ∷ fs) = do
    outcome ← into_outcome show f
    outcomes ← into_outcomes show fs
    ok (outcome ∷ outcomes)

  -- the flags that `into_input` counts
  unfoldable pub flags : ResumeRequest x → List Bool
  flags r =
      is_some r.return_value
      ∷ is_some r.exception
      ∷ is_some_true r.pending
      ∷ is_some r.value
      ∷ is_some_true r.undefined
      ∷ is_some r.futures
      ∷ []

  -- the `if`s of `into_input`, from the last to the first
  unfoldable pub from_futures :
      (show : ℕ → String) → Option (List (FutureInput x)) → ApiResult (ResumeInput x)
  unfolding into_outcomes
  from_futures show none = err internal
  from_futures show (some fs) = do
    outcomes ← into_outcomes show fs
    ok (ResumeInput.futures outcomes)

  unfoldable pub from_value :
      Option (Value x) → ApiResult (ResumeInput x) → ApiResult (ResumeInput x)
  unfolding bad_value
  from_value none rest = rest
  from_value (some value) rest = do
    v ← map_err bad_value (json_to_monty m value)
    ok (ResumeInput.name v)

  unfoldable pub from_exception :
      Option ExceptionInput → ApiResult (ResumeInput x) → ApiResult (ResumeInput x)
  unfolding into_exception
  from_exception none rest = rest
  from_exception (some exc) rest = do e ← into_exception exc; ok (ResumeInput.raise e)

  unfoldable pub from_return :
      Option (Value x) → ApiResult (ResumeInput x) → ApiResult (ResumeInput x)
  unfolding bad_value
  from_return none rest = rest
  from_return (some value) rest = do
    v ← map_err bad_value (json_to_monty m value)
    ok (ResumeInput.return v)

  unfoldable pub from_flag :
      Bool → ResumeInput x → ApiResult (ResumeInput x) → ApiResult (ResumeInput x)
  from_flag flag input rest = if flag then ok input else rest

  -- `ResumeRequest::into_input`
  unfoldable pub into_input : (show : ℕ → String) → ResumeRequest x → ApiResult (ResumeInput x)
  unfolding from_futures from_value from_exception from_return from_flag count_set flags
  into_input show r =
      if count_set (flags r) == 1
      then (from_return r.return_value (
          from_exception r.exception (
            from_flag (is_some_true r.pending) ResumeInput.pending (
              from_value r.value (
                from_flag (is_some_true r.undefined) ResumeInput.name_undefined
                  (from_futures show r.futures))))))
      else err (bad_request one_action)
