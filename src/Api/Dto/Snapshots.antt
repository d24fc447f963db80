-- ===== src/Api/Dto/Snapshots.antt =====
-- The two ways in which src/api/dto.rs reads a source: as code with named inputs, and as a snapshot
-- with the same inputs by position.
use monty_server.Common.{
  ◌≡◌, refl, String, Option, none, some, List, [], ◌∷◌, ok, err, ◌>>=◌, map_err, get_or, Result,
  arith,
}
use monty_server.Error.{ApiResult}
use monty_server.Limits.{LimitsRequest}
use monty_server.External.{
  Types, Externals, Object, array, object, Items, nil, cons, Fields, done, field, Objects, more,
}
use monty_server.Convert.{ConvertError, json_to_monty, json_array_to_monty}
use monty_server.Api.Dto.{
  SourceFields, SourceSpec, into_spec, spec_of, inputs_for_code, inputs_for_snapshot, named_inputs,
  decode_snapshot, bad_input,
}

module _ {x : Types} where
  unfoldable pub names : Fields x → List String
  names done = []
  names (field name value fields) = name ∷ names fields

  unfoldable pub values : Fields x → Items x
  values done = nil
  values (field name value fields) = cons value (values fields)

  abbrev pub of_code :
      (text : String) (filename : Option String) → Fields x → Option LimitsRequest → SourceFields x
  of_code text filename fields limits = record {
    code = some text;
    snapshot = none;
    filename = filename;
    inputs = some (object fields);
    limits = limits;
  }

  abbrev pub of_snapshot :
      (text : String) (filename : Option String) → Items x → Option LimitsRequest → SourceFields x
  of_snapshot text filename items limits = record {
    code = none;
    snapshot = some text;
    filename = filename;
    inputs = some (array items);
    limits = limits;
  }

module _ {x : Types} (m : Externals x) where
  unfoldable pub read_inputs : Items x → ApiResult (Objects x)
  unfolding bad_input
  read_inputs items = map_err bad_input (json_array_to_monty m items)

  abbrev named : List String → Objects x → ApiResult (List String × Objects x)
  named ns objects = ok (ns, objects)

  -- An input and the rest are read in the same order either way.
  read_next :
      (name : String) (ns : List String) (r : Result (Object x) ConvertError)
      (rest : Result (Objects x) ConvertError)
      → (map_err bad_input r >>= (λ o.
          (map_err bad_input rest >>= named ns) >>= (λ q. named (name ∷ q.0) (more o q.1))))
        ≡ (map_err bad_input (do o ← r; os ← rest; ok (more o os)) >>= named (name ∷ ns))
  read_next name ns (err e) rest = refl
  read_next name ns (ok o) (err e) = refl
  read_next name ns (ok o) (ok os) = refl

  named_inputs-names :
      (fields : Fields x)
      → named_inputs m fields ≡ (read_inputs (values fields) >>= named (names fields))
  unfolding named_inputs read_inputs names values json_array_to_monty
  named_inputs-names done = refl
  named_inputs-names (field name value fields) = rw (named_inputs-names fields) (
      read_next name (names fields) (json_to_monty m value) (json_array_to_monty m (values fields)))

  pub into_spec-of_code :
      (text : String) (filename : Option String) (fields : Fields x) (limits : Option LimitsRequest)
      → into_spec m (of_code text filename fields limits) ≡ (
          read_inputs (values fields) >>= (λ objects.
            ok (SourceSpec.code text (get_or filename "main.py") (names fields) objects)))
  unfolding into_spec spec_of inputs_for_code
  into_spec-of_code text filename fields limits = ground (arith, named_inputs-names fields)

  pub into_spec-of_snapshot :
      (text : String) (filename : Option String) (items : Items x) (limits : Option LimitsRequest)
      {program : x.Run}
      → decode_snapshot m text ≡ ok program
      → into_spec m (of_snapshot text filename items limits)
        ≡ (read_inputs items >>= (λ objects. ok (SourceSpec.snapshot program objects)))
  unfolding into_spec spec_of inputs_for_snapshot read_inputs
  into_spec-of_snapshot text filename items limits loaded = ground (arith, loaded)
