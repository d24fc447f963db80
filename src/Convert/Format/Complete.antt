-- ===== src/Convert/Format/Complete.antt =====
-- What the input format of src/convert.rs allows is read.
use monty_server.Common.{ℕ, ◌≡◌, refl, ap, ◌∙◌, String, List, ok, ◌>>=◌, Result, err, arith}
use monty_server.External.{
  Types, Externals, Value, Items, Fields, done, field, Object, Objects, Pairs, no_pairs, pair, dict,
  text,
}
use monty_server.Convert.{
  ConvertError, json_to_monty, json_array_to_monty, object_to_monty, pairs_of, dict_tag_to_monty,
  bytes_of,
}
use monty_server.Convert.Format.{
  IsPlain, ReadsBytes, no_bytes, byte, Reads, a_null, a_bool, an_integer, a_float, a_string,
  an_array, an_object, a_tuple, a_set, a_frozen_set, base64_bytes, listed_bytes, an_ellipsis, a_nan,
  an_infinity, a_neg_infinity, a_dict, a_function, a_path, ReadsAll, no_items, item, ReadsFields,
  no_fields, one_field, ReadsEntries, no_entries, entry,
}

module _ {x : Types} (m : Externals x) where
  -- the last step of the loop, before or after it
  dict_last :
      (key : String) (first : Result (Object x) ConvertError)
      (others : Result (Pairs x) ConvertError)
      → (first >>= λ v. others >>= λ rest. ok (dict (pair (text key) v rest)))
        ≡ ((first >>= λ v. others >>= λ rest. ok (pair (text key) v rest)) >>= λ ps. ok (dict ps))
  dict_last key (err e) others = refl
  dict_last key (ok v) (err e) = refl
  dict_last key (ok v) (ok ps) = refl

  -- An object that is plain is read as its fields.
  pub object_to_monty-plain :
      (fields : Fields x)
      → IsPlain fields
      → object_to_monty m fields ≡ (do ps ← pairs_of m fields; ok (dict ps))
  unfolding json_to_monty
  object_to_monty-plain done plain = refl
  object_to_monty-plain (field key body done) plain =
      rw (object_to_monty, plain) (dict_last key (json_to_monty m body) (ok no_pairs))
  object_to_monty-plain (field key body (field k b rest)) plain =
      dict_last key (json_to_monty m body) (pairs_of m (field k b rest))

  bytes_of-ReadsBytes :
      {items : Items x} {bs : List ℕ} → ReadsBytes m items bs → bytes_of m items ≡ ok bs
  unfolding bytes_of
  bytes_of-ReadsBytes no_bytes = refl
  bytes_of-ReadsBytes (byte n le rest) = ground (arith, n, le, bytes_of-ReadsBytes rest)

  mutual
    unfolding json_to_monty

    read : {v : Value x} {o : Object x} → Reads m v o → json_to_monty m v ≡ ok o
    read a_null = refl
    read a_bool = refl
    read (an_integer e) = ground (arith, e)
    read (a_float e c f) = ground (arith, e, c, f)
    read a_string = refl
    read (an_array h) = ground (arith, read_all h)
    read (an_object {fields} plain h) =
        object_to_monty-plain fields plain ∙ ap (λ r. r >>= λ ps. ok (dict ps)) (read_fields h)
    read (a_tuple h) = ground (arith, read_all h)
    read (a_set h) = ground (arith, read_all h)
    read (a_frozen_set h) = ground (arith, read_all h)
    read (base64_bytes e) = ground (arith, e)
    read (listed_bytes h) = ground (arith, bytes_of-ReadsBytes h)
    read an_ellipsis = ground arith
    read a_nan = refl
    read an_infinity = refl
    read a_neg_infinity = refl
    read (a_dict h) = ground (arith, read_dict h)
    read a_function = refl
    read a_path = refl

    read_all :
        {items : Items x} {os : Objects x}
        → ReadsAll m items os
        → json_array_to_monty m items ≡ ok os
    read_all no_items = refl
    read_all (item h rest) = ground (arith, read h, read_all rest)

    read_fields :
        {fields : Fields x} {ps : Pairs x} → ReadsFields m fields ps → pairs_of m fields ≡ ok ps
    read_fields no_fields = refl
    read_fields (one_field h rest) = ground (arith, read h, read_fields rest)

    read_dict :
        {entries : Items x} {ps : Pairs x}
        → ReadsEntries m entries ps
        → dict_tag_to_monty m entries ≡ ok ps
    read_dict no_entries = refl
    read_dict (entry k v rest) = ground (arith, read k, read v, read_dict rest)

  pub Reads-complete : {v : Value x} {o : Object x} → Reads m v o → json_to_monty m v ≡ ok o
  Reads-complete h = read h
