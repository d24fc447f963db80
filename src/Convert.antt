-- ===== src/Convert.antt =====
-- src/convert.rs: JSON to monty values, monty values and exceptions to JSON.
pub mod Wire
pub mod Format
use Prim.Native.Char.{code}
use Prim.Native.String.{◌++◌ as str_append}
use monty_server.Common.{
  ℕ, String, str_eq, Bool, true, false, ◌||◌, Option, none, some, List, [], ◌∷◌, map, Result, ok,
  err, ◌>>=◌, ok_or, map_err, leb, ◌==◌, if◌then◌else◌,
}
use monty_server.External.{
  Types, Externals, StackFrame, Value, null, bool, number, string, array, object, Items, nil, cons,
  Fields, done, field, Object, none_object, ellipsis, bool_object, int, float, text, bytes, path,
  list, tuple, set, frozen_set, dict, function, other, Objects, empty, more, Pairs, no_pairs, pair,
}

-- `ConvertError`: its message
abbrev pub ConvertError : Type 0
ConvertError = String

-- `str::contains` of one of three characters
pub contains_point : String → Bool
contains_point String.[] = false
contains_point (String.◌∷◌ c s) =
    code c == b'.' || (code c == b'e' || (code c == b'E' || contains_point s))

-- `strip_prefix('$')` succeeds
pub starts_with_dollar : String → Bool
starts_with_dollar String.[] = false
starts_with_dollar (String.◌∷◌ c s) = code c == b'$'

-- The tags that `tagged_to_monty` knows.
pub data Tag : Type 0 where
  a_tuple a_set a_frozen_set a_bytes an_ellipsis a_float a_dict a_function a_path unsupported : Tag

pub tag_of : String → Tag
tag_of tag =
    if str_eq tag "$tuple"
    then a_tuple
    else if str_eq tag "$set"
    then a_set
    else if str_eq tag "$frozenset"
    then a_frozen_set
    else if str_eq tag "$bytes"
    then a_bytes
    else if str_eq tag "$ellipsis"
    then an_ellipsis
    else if str_eq tag "$float"
    then a_float
    else if str_eq tag "$dict"
    then a_dict
    else if str_eq tag "$function"
    then a_function
    else if str_eq tag "$path"
    then a_path
    else unsupported

module _ {x : Types} (m : Externals x) where
  -- `number_to_monty`
  pub number_to_monty : x.Number → Result (Object x) ConvertError
  unfolding contains_point
  number_to_monty n = elim (m.as_i64 n) [
    | some i ↦ ok (int i)
    | none ↦
        if contains_point (m.literal n)
        then (elim (m.as_f64 n) [
          | some f ↦ ok (float f)
          | none ↦ err (str_append "unsupported JSON number: " (m.literal n))
        ])
        else err (
            str_append "integer "
              (str_append (m.literal n) " is outside the supported i64 input range"))
  ]

  -- `Value::as_u64`
  abbrev value_as_u64 : Value x → Option ℕ
  value_as_u64 (number n) = m.as_u64 n
  value_as_u64 _ = none

  not_a_byte : ConvertError
  not_a_byte = "$bytes array contains a non-byte value"

  -- `as_u64().filter(|n| *n <= 255)`
  byte_of : Option ℕ → Result ℕ ConvertError
  unfolding not_a_byte
  byte_of (some n) = if leb n 255 then ok n else err not_a_byte
  byte_of none = err not_a_byte

  -- the loop of `bytes_to_monty`
  bytes_of : Items x → Result (List ℕ) ConvertError
  unfolding byte_of
  bytes_of nil = ok []
  bytes_of (cons item items) = do
    byte ← byte_of (value_as_u64 item)
    rest ← bytes_of items
    ok (byte ∷ rest)

  -- `bytes_to_monty`
  pub bytes_to_monty : Value x → Result (Object x) ConvertError
  unfolding bytes_of
  bytes_to_monty (string encoded) = do
    decoded ← map_err (str_append "$bytes is not valid base64: ") (m.base64_decode encoded)
    ok (bytes decoded)
  bytes_to_monty (array items) = do decoded ← bytes_of items; ok (bytes decoded)
  bytes_to_monty _ = err "$bytes expects a base64 string or an array of bytes"

  bad_float : ConvertError
  bad_float = "$float expects \"nan\", \"inf\", or \"-inf\""

  -- `float_tag_to_monty`
  pub float_tag_to_monty : Value x → Result (Object x) ConvertError
  unfolding bad_float
  float_tag_to_monty (string s) =
      if str_eq s "nan"
      then ok (float m.nan)
      else if str_eq s "inf"
      then ok (float m.infinity)
      else if str_eq s "-inf"
      then ok (float m.neg_infinity)
      else err bad_float
  float_tag_to_monty _ = err bad_float

  -- `function_tag_to_monty`
  pub function_tag_to_monty : Value x → Result (Object x) ConvertError
  function_tag_to_monty (string name) = ok (function name none)
  function_tag_to_monty _ = err "$function expects a function name string"

  -- `path_tag_to_monty`
  pub path_tag_to_monty : Value x → Result (Object x) ConvertError
  path_tag_to_monty (string s) = ok (path s)
  path_tag_to_monty _ = err "$path expects a path string"

  -- `expect_array` on anything else
  expected_array : String → Result (Object x) ConvertError
  expected_array tag = err (str_append tag " expects an array")

  -- `tagged_to_monty`, where `body` is no array or the tag wants none
  pub tagged_plain : String → Tag → Value x → Result (Object x) ConvertError
  unfolding bytes_to_monty float_tag_to_monty function_tag_to_monty path_tag_to_monty expected_array
  tagged_plain tag a_tuple body = expected_array tag
  tagged_plain tag a_set body = expected_array tag
  tagged_plain tag a_frozen_set body = expected_array tag
  tagged_plain tag a_bytes body = bytes_to_monty body
  tagged_plain tag an_ellipsis body = ok ellipsis
  tagged_plain tag a_float body = float_tag_to_monty body
  tagged_plain tag a_dict body = err "$dict expects an array of [key, value] pairs"
  tagged_plain tag a_function body = function_tag_to_monty body
  tagged_plain tag a_path body = path_tag_to_monty body
  tagged_plain tag unsupported body = err (str_append "unsupported tagged value " (m.debug tag))

  abbrev bad_entry : ConvertError
  bad_entry = "$dict entries must be [key, value] pairs"

  -- `single_dollar_tag`: is the field alone, and its key a tag?
  is_single_tag : String → Fields x → Bool
  unfolding starts_with_dollar
  is_single_tag key done = starts_with_dollar key
  is_single_tag key (field _ _ _) = false

  unfoldable mutual
    unfolding number_to_monty is_single_tag tag_of tagged_plain

    -- `json_to_monty`
    pub json_to_monty : Value x → Result (Object x) ConvertError
    json_to_monty null = ok none_object
    json_to_monty (bool b) = ok (bool_object b)
    json_to_monty (number n) = number_to_monty n
    json_to_monty (string s) = ok (text s)
    json_to_monty (array items) = do objects ← json_array_to_monty items; ok (list objects)
    json_to_monty (object fields) = object_to_monty fields

    -- `json_array_to_monty`
    pub json_array_to_monty : Items x → Result (Objects x) ConvertError
    json_array_to_monty nil = ok empty
    json_array_to_monty (cons item items) = do
      o ← json_to_monty item
      rest ← json_array_to_monty items
      ok (more o rest)

    -- `object_to_monty`
    pub object_to_monty : Fields x → Result (Object x) ConvertError
    object_to_monty done = ok (dict no_pairs)
    object_to_monty (field key body fields) = elim (is_single_tag key fields) [
      | true ↦ tagged_to_monty key body
      | false ↦ do
        v ← json_to_monty body
        rest ← pairs_of fields
        ok (dict (pair (text key) v rest))
    ]

    -- the loop of `object_to_monty`, from its second round
    pub pairs_of : Fields x → Result (Pairs x) ConvertError
    pairs_of done = ok no_pairs
    pairs_of (field key body fields) = do
      v ← json_to_monty body
      rest ← pairs_of fields
      ok (pair (text key) v rest)

    -- `tagged_to_monty`
    pub tagged_to_monty : String → Value x → Result (Object x) ConvertError
    tagged_to_monty tag (array items) = elim (tag_of tag) [
      | a_tuple ↦ do objects ← json_array_to_monty items; ok (tuple objects)
      | a_set ↦ do objects ← json_array_to_monty items; ok (set objects)
      | a_frozen_set ↦ do objects ← json_array_to_monty items; ok (frozen_set objects)
      | a_dict ↦ do pairs ← dict_tag_to_monty items; ok (dict pairs)
      | known ↦ tagged_plain tag known (array items)
    ]
    tagged_to_monty tag body = tagged_plain tag (tag_of tag) body

    -- the loop of `dict_tag_to_monty`
    pub dict_tag_to_monty : Items x → Result (Pairs x) ConvertError
    dict_tag_to_monty nil = ok no_pairs
    dict_tag_to_monty (cons (array (cons k (cons v nil))) entries) = do
      key ← json_to_monty k
      value ← json_to_monty v
      rest ← dict_tag_to_monty entries
      ok (pair key value rest)
    dict_tag_to_monty (cons _ entries) = err bad_entry

  -- `monty_to_json` and `monty_slice_to_json`
  unfoldable pub monty_to_json : Object x → Result (Value x) ConvertError
  monty_to_json o = map_err (str_append "failed to encode result as JSON: ") (m.to_value o)

  unfoldable pub monty_slice_to_json : Objects x → Result (Value x) ConvertError
  monty_slice_to_json os =
      map_err (str_append "failed to encode values as JSON: ") (m.slice_to_value os)

  -- the loop of `monty_pairs_to_json`
  insert_pairs : Pairs x → Fields x → Result (Fields x) ConvertError
  unfolding monty_to_json
  insert_pairs no_pairs entries = ok entries
  insert_pairs (pair (text name) v pairs) entries = do
    json ← monty_to_json v
    insert_pairs pairs (m.map_insert name json entries)
  insert_pairs (pair _ v pairs) entries = err "keyword argument name was not a string"

  -- `monty_pairs_to_json`
  unfoldable pub monty_pairs_to_json : Pairs x → Result (Value x) ConvertError
  unfolding insert_pairs
  monty_pairs_to_json pairs = do entries ← insert_pairs pairs done; ok (object entries)

  -- `exception_from_parts`
  unfoldable pub exception_from_parts : String → Option String → Result x.Exception ConvertError
  exception_from_parts exc_type message = do
    parsed ←
        ok_or (m.parse_exc_type exc_type) (str_append "unknown exception type " (m.debug exc_type))
    ok (m.new_exception parsed message)

-- `ApiFrame`
pub record ApiFrame : Type 0 where
  pub filename : String
  pub function : Option String
  pub line : ℕ
  pub column : ℕ
  pub end_line : ℕ
  pub end_column : ℕ
  pub source : Option String

-- `ApiException`
pub record ApiException : Type 0 where
  pub exc_type : String
  pub message : Option String
  pub summary : String
  pub traceback : List ApiFrame
  pub traceback_text : String

-- `From<&StackFrame> for ApiFrame`
unfoldable pub api_frame : StackFrame → ApiFrame
api_frame f = record {
  filename = f.filename;
  function = f.frame_name;
  line = f.start.line;
  column = f.start.column;
  end_line = f.end.line;
  end_column = f.end.column;
  source = f.preview_line;
}

-- `From<&MontyException> for ApiException`
unfoldable pub api_exception : {x : Types} → Externals x → x.Exception → ApiException
unfolding api_frame
api_exception m e = record {
  exc_type = m.exc_type_name e;
  message = m.exc_message e;
  summary = m.exc_summary e;
  traceback = map api_frame (m.exc_traceback e);
  traceback_text = m.exc_text e;
}
