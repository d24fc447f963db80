-- ===== src/Convert/Format.antt =====
-- The input format in the table at the head of src/convert.rs, as a relation between JSON and values.
pub mod Complete
pub mod Leaves
pub mod Sound
pub mod Exact
use monty_server.Common.{ℕ, ◌≤◌, ◌≡◌, String, Bool, true, false, none, some, List, [], ◌∷◌, ok}
use monty_server.External.{
  Types, Externals, Value, null, bool, number, string, array, object, Items, nil, cons, Fields,
  done, field, Object, none_object, ellipsis, bool_object, int, float, text, bytes, path, list,
  tuple, set, frozen_set, dict, function, Objects, empty, more, Pairs, no_pairs, pair,
}
use monty_server.Convert.{contains_point, starts_with_dollar}

-- a single-key object
abbrev pub tagged : {x : Types} → String → Value x → Value x
tagged tag body = object (field tag body done)

-- The object is not a single key with a dollar sign in front.
abbrev pub IsPlain : {x : Types} → Fields x → Type 0
IsPlain done = Unit
IsPlain (field key body done) = starts_with_dollar key ≡ false
IsPlain (field key body (field _ _ _)) = Unit

module _ {x : Types} (m : Externals x) where
  -- an array of bytes
  pub data ReadsBytes : Items x → List ℕ → Type 0 where
    no_bytes : ReadsBytes nil []
    byte :
        {n : x.Number} {b : ℕ} {items : Items x} {bs : List ℕ}
        → m.as_u64 n ≡ some b
        → b ≤ 255
        → ReadsBytes items bs
        → ReadsBytes (cons (number n) items) (b ∷ bs)

  mutual
    -- A row for each form of a value. A number is an integer if it fits `i64`, and otherwise a float
    -- if it is written as one; `$ellipsis` takes any body.
    pub data Reads : Value x → Object x → Type 0 where
      a_null : Reads null none_object
      a_bool : {b : Bool} → Reads (bool b) (bool_object b)
      an_integer : {n : x.Number} {i : _} → m.as_i64 n ≡ some i → Reads (number n) (int i)
      a_float :
          {n : x.Number} {f : x.Float}
          → m.as_i64 n ≡ none
          → contains_point (m.literal n) ≡ true
          → m.as_f64 n ≡ some f
          → Reads (number n) (float f)
      a_string : {s : String} → Reads (string s) (text s)
      an_array :
          {items : Items x} {os : Objects x} → ReadsAll items os → Reads (array items) (list os)
      an_object :
          {fields : Fields x} {ps : Pairs x}
          → IsPlain fields
          → ReadsFields fields ps
          → Reads (object fields) (dict ps)
      a_tuple :
          {items : Items x} {os : Objects x}
          → ReadsAll items os
          → Reads (tagged "$tuple" (array items)) (tuple os)
      a_set :
          {items : Items x} {os : Objects x}
          → ReadsAll items os
          → Reads (tagged "$set" (array items)) (set os)
      a_frozen_set :
          {items : Items x} {os : Objects x}
          → ReadsAll items os
          → Reads (tagged "$frozenset" (array items)) (frozen_set os)
      base64_bytes :
          {s : String} {bs : List ℕ}
          → m.base64_decode s ≡ ok bs
          → Reads (tagged "$bytes" (string s)) (bytes bs)
      listed_bytes :
          {items : Items x} {bs : List ℕ}
          → ReadsBytes items bs
          → Reads (tagged "$bytes" (array items)) (bytes bs)
      an_ellipsis : {body : Value x} → Reads (tagged "$ellipsis" body) ellipsis
      a_nan : Reads (tagged "$float" (string "nan")) (float m.nan)
      an_infinity : Reads (tagged "$float" (string "inf")) (float m.infinity)
      a_neg_infinity : Reads (tagged "$float" (string "-inf")) (float m.neg_infinity)
      a_dict :
          {entries : Items x} {ps : Pairs x}
          → ReadsEntries entries ps
          → Reads (tagged "$dict" (array entries)) (dict ps)
      a_function : {name : String} → Reads (tagged "$function" (string name)) (function name none)
      a_path : {p : String} → Reads (tagged "$path" (string p)) (path p)

    pub data ReadsAll : Items x → Objects x → Type 0 where
      no_items : ReadsAll nil empty
      item :
          {v : Value x} {o : Object x} {items : Items x} {os : Objects x}
          → Reads v o
          → ReadsAll items os
          → ReadsAll (cons v items) (more o os)

    pub data ReadsFields : Fields x → Pairs x → Type 0 where
      no_fields : ReadsFields done no_pairs
      one_field :
          {key : String} {v : Value x} {o : Object x} {fields : Fields x} {ps : Pairs x}
          → Reads v o
          → ReadsFields fields ps
          → ReadsFields (field key v fields) (pair (text key) o ps)

    pub data ReadsEntries : Items x → Pairs x → Type 0 where
      no_entries : ReadsEntries nil no_pairs
      entry :
          {k v : Value x} {key value : Object x} {entries : Items x} {ps : Pairs x}
          → Reads k key
          → Reads v value
          → ReadsEntries entries ps
          → ReadsEntries (cons (array (cons k (cons v nil))) entries) (pair key value ps)
