-- ===== src/Convert/Wire.antt =====
-- The input format of src/convert.rs, as a translation of values to JSON.
use monty_server.Common.{
  ℕ, ◌^◌, ◌≤◌, ◌≡◌, String, Bool, true, none, some, List, [], ◌∷◌, Result, ok, err, ◌>>=◌,
  >>=-eq-ok, arith, ltb, leb, if◌then◌else◌,
}
use monty_server.Common.Int.{ℤ, pos, negsuc}
use monty_server.External.{
  Types, Externals, Value, null, bool, number, string, array, object, Items, nil, cons, done, field,
  Object, none_object, ellipsis, bool_object, int, float, text, bytes, path, list, tuple, set,
  frozen_set, dict, function, other, Objects, empty, more, Pairs, no_pairs, pair,
}
use monty_server.Convert.{json_to_monty, json_array_to_monty, dict_tag_to_monty, bytes_of}

-- the range of `i64`
abbrev pub is_i64 : ℤ → Bool
is_i64 (pos n) = ltb n (2 ^ 63)
is_i64 (negsuc n) = ltb n (2 ^ 63)

-- What serde_json says of the numbers that it builds.
pub record NumberLaws {x : Types} (m : Externals x) : Type 0 where
  pub from_i64 : ℤ → x.Number
  pub from_u8 : ℕ → x.Number
  pub as_i64-from_i64 : (i : ℤ) → is_i64 i ≡ true → m.as_i64 (from_i64 i) ≡ some i
  pub as_u64-from_u8 : (n : ℕ) → n ≤ 255 → m.as_u64 (from_u8 n) ≡ some n

abbrev Partial : Type 0 → Type 0
Partial A = Result A (Unit {0})

module _ {x : Types} {m : Externals x} (laws : NumberLaws m) where
  open laws use {from_i64, from_u8, as_i64-from_i64, as_u64-from_u8}

  abbrev tagged : String → Value x → Value x
  tagged tag body = object (field tag body done)

  encode_bytes : List ℕ → Partial (Items x)
  encode_bytes [] = ok nil
  encode_bytes (b ∷ bs) = do
    rest ← encode_bytes bs
    if leb b 255 then ok (cons (number (from_u8 b)) rest) else err tt

  -- The JSON form of a value, by the table at the head of convert.rs. Floats, functions with
  -- a docstring and the values that only an execution builds have none here.
  unfoldable mutual
    unfolding encode_bytes

    pub encode : Object x → Partial (Value x)
    encode none_object = ok null
    encode ellipsis = ok (tagged "$ellipsis" (string "..."))
    encode (bool_object b) = ok (bool b)
    encode (int i) = if is_i64 i then ok (number (from_i64 i)) else err tt
    encode (float f) = err tt
    encode (text s) = ok (string s)
    encode (bytes bs) = do items ← encode_bytes bs; ok (tagged "$bytes" (array items))
    encode (path p) = ok (tagged "$path" (string p))
    encode (list os) = do items ← encode_all os; ok (array items)
    encode (tuple os) = do items ← encode_all os; ok (tagged "$tuple" (array items))
    encode (set os) = do items ← encode_all os; ok (tagged "$set" (array items))
    encode (frozen_set os) = do items ← encode_all os; ok (tagged "$frozenset" (array items))
    encode (dict ps) = do entries ← encode_pairs ps; ok (tagged "$dict" (array entries))
    encode (function name none) = ok (tagged "$function" (string name))
    encode (function name (some doc)) = err tt
    encode (other o) = err tt

    pub encode_all : Objects x → Partial (Items x)
    encode_all empty = ok nil
    encode_all (more o os) = do v ← encode o; items ← encode_all os; ok (cons v items)

    pub encode_pairs : Pairs x → Partial (Items x)
    encode_pairs no_pairs = ok nil
    encode_pairs (pair k v ps) = do
      key ← encode k
      value ← encode v
      entries ← encode_pairs ps
      ok (cons (array (cons key (cons value nil))) entries)

  bytes_of-encode_bytes :
      (bs : List ℕ) (items : Items x) → encode_bytes bs ≡ ok items → bytes_of m items ≡ ok bs
  unfolding encode_bytes bytes_of
  bytes_of-encode_bytes [] items h = ground arith
  bytes_of-encode_bytes (b ∷ bs) items h =
      let (rest, e, f) = >>=-eq-ok (encode_bytes bs) _ h in
      ground (arith, as_u64-from_u8 b, bytes_of-encode_bytes bs rest e)

  mutual
    unfolding json_to_monty encode

    decode-encode : (o : Object x) (v : Value x) → encode o ≡ ok v → json_to_monty m v ≡ ok o
    decode-encode none_object v h = ground arith
    decode-encode ellipsis v h = ground arith
    decode-encode (bool_object b) v h = ground arith
    decode-encode (int i) v h = ground (arith, as_i64-from_i64 i)
    decode-encode (float f) v h = cc
    decode-encode (text s) v h = ground arith
    decode-encode (bytes bs) v h =
        let (items, e, f) = >>=-eq-ok (encode_bytes bs) _ h in
        ground (arith, bytes_of-encode_bytes bs items e)
    decode-encode (path p) v h = ground arith
    decode-encode (list os) v h =
        let (items, e, f) = >>=-eq-ok (encode_all os) _ h in
        ground (arith, decode-encode_all os items e)
    decode-encode (tuple os) v h =
        let (items, e, f) = >>=-eq-ok (encode_all os) _ h in
        ground (arith, decode-encode_all os items e)
    decode-encode (set os) v h =
        let (items, e, f) = >>=-eq-ok (encode_all os) _ h in
        ground (arith, decode-encode_all os items e)
    decode-encode (frozen_set os) v h =
        let (items, e, f) = >>=-eq-ok (encode_all os) _ h in
        ground (arith, decode-encode_all os items e)
    decode-encode (dict ps) v h =
        let (items, e, f) = >>=-eq-ok (encode_pairs ps) _ h in
        ground (arith, decode-encode_pairs ps items e)
    decode-encode (function name none) v h = ground arith
    decode-encode (function name (some doc)) v h = cc
    decode-encode (other o) v h = cc

    decode-encode_all :
        (os : Objects x) (items : Items x)
        → encode_all os ≡ ok items
        → json_array_to_monty m items ≡ ok os
    decode-encode_all empty items h = ground arith
    decode-encode_all (more o os) items h =
        let (v, e, f) = >>=-eq-ok (encode o) _ h in
        let (rest, e', f') = >>=-eq-ok (encode_all os) _ f in
        ground (arith, decode-encode o v e, decode-encode_all os rest e')

    decode-encode_pairs :
        (ps : Pairs x) (items : Items x)
        → encode_pairs ps ≡ ok items
        → dict_tag_to_monty m items ≡ ok ps
    decode-encode_pairs no_pairs items h = ground arith
    decode-encode_pairs (pair k v ps) items h =
        let (key, e, f) = >>=-eq-ok (encode k) _ h in
        let (value, e', f') = >>=-eq-ok (encode v) _ f in
        let (rest, e'', f'') = >>=-eq-ok (encode_pairs ps) _ f' in
        ground
          (arith, decode-encode k key e, decode-encode v value e', decode-encode_pairs ps rest e'')

  -- If `encode` gives a value a JSON form, which it does not for floats, functions with a
  -- docstring, integers outside `i64` and the values that only an execution builds, then the server
  -- reads that form back as the same value; the two laws on numbers are what serde_json documents.
  pub json_to_monty-encode :
      (o : Object x) (v : Value x) → encode o ≡ ok v → json_to_monty m v ≡ ok o
  json_to_monty-encode o v h = decode-encode o v h
