-- ===== src/Convert/Format/Exact.antt =====
-- `json_to_monty` of src/convert.rs reads exactly its input format.
use monty_server.Common.{
  ◌≡◌, ◌↔◌, sym, ◌∙◌, subst, String, ok, ok-injective, >>=-eq-ok, arith, Bool-cases, inl, inr,
}
use monty_server.External.{
  Types, Externals, Value, null, bool, number, string, array, object, Items, nil, cons, Fields,
  done, field, Object, Objects, Pairs, dict,
}
use monty_server.Convert.{
  json_to_monty, json_array_to_monty, object_to_monty, pairs_of, dict_tag_to_monty, tag_of,
  tagged_plain, tagged_to_monty, starts_with_dollar,
}
use monty_server.Convert.Format.{
  tagged, IsPlain, Reads, a_null, a_bool, a_string, an_array, an_object, ReadsAll, no_items, item,
  ReadsFields, no_fields, one_field, ReadsEntries, no_entries, entry,
}
use monty_server.Convert.Format.Complete.{object_to_monty-plain, Reads-complete}
use monty_server.Convert.Format.Leaves.{number_to_monty-Reads}
use monty_server.Convert.Format.Sound.{tag_of-IsSpelled, plain-Reads, array_result, array-Reads}

module _ {x : Types} (m : Externals x) where
  tagged_plain-Reads :
      (tag : String) (body : Value x) (o : Object x)
      → tagged_plain m tag (tag_of tag) body ≡ ok o
      → Reads m (tagged tag body) o
  unfolding tagged_plain
  tagged_plain-Reads tag body o h = elim (tag_of-IsSpelled tag) [
    | inl unknown ↦ cc (subst (λ t. tagged_plain m tag t body ≡ ok o) unknown h)
    | inr e ↦
        subst (λ w. Reads m (tagged w body) o) (sym e) (plain-Reads m tag (tag_of tag) body o h)
  ]

  tagged_array-Reads :
      (tag : String) (items : Items x) (o : Object x)
      → ((os : Objects x) → json_array_to_monty m items ≡ ok os → ReadsAll m items os)
      → ((ps : Pairs x) → dict_tag_to_monty m items ≡ ok ps → ReadsEntries m items ps)
      → array_result m tag (tag_of tag) items ≡ ok o
      → Reads m (tagged tag (array items)) o
  unfolding tagged_plain
  tagged_array-Reads tag items o all entries h = elim (tag_of-IsSpelled tag) [
    | inl unknown ↦ cc (subst (λ t. array_result m tag t items ≡ ok o) unknown h)
    | inr e ↦
        subst (λ w. Reads m (tagged w (array items)) o) (sym e)
          (array-Reads m tag (tag_of tag) items o all entries h)
  ]

  -- Of an object with a single field: what is read of it as a tag.
  abbrev SingleReads : Fields x → Object x → Type 0
  SingleReads done o = Unit
  SingleReads (field key body done) o =
      tagged_to_monty m key body ≡ ok o → Reads m (tagged key body) o
  SingleReads (field key body (field _ _ _)) o = Unit

  plain_object-Reads :
      (fields : Fields x) (o : Object x)
      → IsPlain fields
      → ((ps : Pairs x) → pairs_of m fields ≡ ok ps → ReadsFields m fields ps)
      → object_to_monty m fields ≡ ok o
      → Reads m (object fields) o
  plain_object-Reads fields o plain each h =
      let (ps, e, f) =
        >>=-eq-ok (pairs_of m fields) (λ ps. ok (dict ps))
          (sym (object_to_monty-plain m fields plain) ∙ h) in
      subst (Reads m (object fields)) (ok-injective f) (an_object plain (each ps e))

  object-Reads :
      (fields : Fields x) (o : Object x)
      → SingleReads fields o
      → ((ps : Pairs x) → pairs_of m fields ≡ ok ps → ReadsFields m fields ps)
      → object_to_monty m fields ≡ ok o
      → Reads m (object fields) o
  unfolding json_to_monty
  object-Reads done o single each h = plain_object-Reads done o tt each h
  object-Reads (field key body done) o single each h = elim (Bool-cases (starts_with_dollar key)) [
    | inl dollar ↦ single (ground (arith, dollar, h))
    | inr none_there ↦ plain_object-Reads (field key body done) o none_there each h
  ]
  object-Reads (field key body (field k b rest)) o single each h =
      plain_object-Reads (field key body (field k b rest)) o tt each h

  mutual
    unfolding json_to_monty

    reads : (v : Value x) (o : Object x) → json_to_monty m v ≡ ok o → Reads m v o
    reads null o h = subst (Reads m null) (ok-injective h) a_null
    reads (bool b) o h = subst (Reads m (bool b)) (ok-injective h) a_bool
    reads (number n) o h = number_to_monty-Reads m n o h
    reads (string s) o h = subst (Reads m (string s)) (ok-injective h) a_string
    reads (array items) o h =
        let (os, e, f) = >>=-eq-ok (json_array_to_monty m items) _ h in
        subst (Reads m (array items)) (ok-injective f) (an_array (reads_all items os e))
    reads (object fields) o h =
        object-Reads fields o (reads_single fields o) (reads_fields fields) h

    reads_all :
        (items : Items x) (os : Objects x)
        → json_array_to_monty m items ≡ ok os
        → ReadsAll m items os
    reads_all nil os h = subst (ReadsAll m nil) (ok-injective h) no_items
    reads_all (cons v items) os h =
        let (o, e, f) = >>=-eq-ok (json_to_monty m v) _ h in
        let (rest, e', f') = >>=-eq-ok (json_array_to_monty m items) _ f in
        subst (ReadsAll m (cons v items)) (ok-injective f')
          (item (reads v o e) (reads_all items rest e'))

    reads_fields :
        (fields : Fields x) (ps : Pairs x) → pairs_of m fields ≡ ok ps → ReadsFields m fields ps
    reads_fields done ps h = subst (ReadsFields m done) (ok-injective h) no_fields
    reads_fields (field key v fields) ps h =
        let (o, e, f) = >>=-eq-ok (json_to_monty m v) _ h in
        let (rest, e', f') = >>=-eq-ok (pairs_of m fields) _ f in
        subst (ReadsFields m (field key v fields)) (ok-injective f')
          (one_field (reads v o e) (reads_fields fields rest e'))

    reads_single : (fields : Fields x) (o : Object x) → SingleReads fields o
    reads_single done o = tt
    reads_single (field key body done) o = reads_tagged key body o
    reads_single (field key body (field k b rest)) o = tt

    reads_tagged :
        (tag : String) (body : Value x) (o : Object x)
        → tagged_to_monty m tag body ≡ ok o
        → Reads m (tagged tag body) o
    reads_tagged tag (array items) o h =
        tagged_array-Reads tag items o (reads_all items) (reads_entries items) h
    reads_tagged tag null o h = tagged_plain-Reads tag null o h
    reads_tagged tag (bool b) o h = tagged_plain-Reads tag (bool b) o h
    reads_tagged tag (number n) o h = tagged_plain-Reads tag (number n) o h
    reads_tagged tag (string s) o h = tagged_plain-Reads tag (string s) o h
    reads_tagged tag (object fields) o h = tagged_plain-Reads tag (object fields) o h

    reads_entries :
        (entries : Items x) (ps : Pairs x)
        → dict_tag_to_monty m entries ≡ ok ps
        → ReadsEntries m entries ps
    reads_entries nil ps h = subst (ReadsEntries m nil) (ok-injective h) no_entries
    reads_entries (cons (array (cons k (cons v nil))) entries) ps h =
        let (key, e, f) = >>=-eq-ok (json_to_monty m k) _ h in
        let (value, e', f') = >>=-eq-ok (json_to_monty m v) _ f in
        let (rest, e'', f'') = >>=-eq-ok (dict_tag_to_monty m entries) _ f' in
        subst (ReadsEntries m (cons (array (cons k (cons v nil))) entries)) (ok-injective f'')
          (entry (reads k key e) (reads v value e') (reads_entries entries rest e''))
    reads_entries (cons _ entries) ps h = cc

  -- A JSON value is read as a value of monty exactly if the input format relates the two: `Reads`
  -- has a row for each form of the table at the head of convert.rs, with a number read as an
  -- integer if it fits `i64` and otherwise as a float if it is written with a point or an exponent,
  -- and with an object read as a tag exactly if it has a single field whose key starts with a
  -- dollar sign.
  pub json_to_monty-Reads : (v : Value x) (o : Object x) → (json_to_monty m v ≡ ok o) ↔ Reads m v o
  json_to_monty-Reads v o = (reads v o, Reads-complete m)
