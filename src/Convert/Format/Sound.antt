-- ===== src/Convert/Format/Sound.antt =====
-- What src/convert.rs reads under a tag is of the input format.
use monty_server.Common.{
  ◌≡◌, refl, subst, String, str_eq, eq_iff, ok, ◌>>=◌, >>=-eq-ok, ok-injective, Result, Bool-cases,
  if◌then◌else◌, inl, inr, ◌⊎◌,
}
use monty_server.External.{
  Types, Externals, Value, array, Items, Object, Objects, Pairs, dict, tuple, set, frozen_set,
}
use monty_server.Convert.{
  ConvertError, json_array_to_monty, dict_tag_to_monty, Tag, tag_of, tagged_plain, expected_array,
}
use monty_server.Convert.Format.{
  tagged, Reads, a_tuple, a_set, a_frozen_set, an_ellipsis, a_dict, ReadsAll, ReadsEntries,
}
use monty_server.Convert.Format.Leaves.{
  bytes_to_monty-Reads, float_tag-Reads, function_tag-Reads, path_tag-Reads,
}

-- the spelling of a tag
unfoldable pub tag_name : Tag → String
tag_name Tag.a_tuple = "$tuple"
tag_name Tag.a_set = "$set"
tag_name Tag.a_frozen_set = "$frozenset"
tag_name Tag.a_bytes = "$bytes"
tag_name Tag.an_ellipsis = "$ellipsis"
tag_name Tag.a_float = "$float"
tag_name Tag.a_dict = "$dict"
tag_name Tag.a_function = "$function"
tag_name Tag.a_path = "$path"
tag_name Tag.unsupported = ""

-- The tag is the unsupported one, or it is spelled so.
abbrev pub IsSpelled : String → Tag → Type 0
IsSpelled tag t = (t ≡ Tag.unsupported) ⊎ (tag ≡ tag_name t)

-- one test of `tag_of`
IsSpelled-next :
    (tag : String) (t others : Tag)
    → IsSpelled tag others
    → IsSpelled tag (if str_eq tag (tag_name t) then t else others)
IsSpelled-next tag t others h = elim (Bool-cases (str_eq tag (tag_name t))) [
  | inl e ↦ rw e (inr ((eq_iff tag (tag_name t)).0 e))
  | inr differ ↦ rw differ h
]

pub tag_of-IsSpelled : (tag : String) → IsSpelled tag (tag_of tag)
unfolding tag_of tag_name
tag_of-IsSpelled tag = IsSpelled-next tag Tag.a_tuple _ (
    IsSpelled-next tag Tag.a_set _ (
      IsSpelled-next tag Tag.a_frozen_set _ (
        IsSpelled-next tag Tag.a_bytes _ (
          IsSpelled-next tag Tag.an_ellipsis _ (
            IsSpelled-next tag Tag.a_float _ (
              IsSpelled-next tag Tag.a_dict _ (
                IsSpelled-next tag Tag.a_function _
                  (IsSpelled-next tag Tag.a_path _ (inl refl)))))))))

module _ {x : Types} (m : Externals x) where
  -- Under its own spelling, what is read of a tag is of the format.
  pub plain-Reads :
      (tag : String) (t : Tag) (body : Value x) (o : Object x)
      → tagged_plain m tag t body ≡ ok o
      → Reads m (tagged (tag_name t) body) o
  unfolding tagged_plain tag_name expected_array
  plain-Reads tag Tag.a_tuple body o h = cc
  plain-Reads tag Tag.a_set body o h = cc
  plain-Reads tag Tag.a_frozen_set body o h = cc
  plain-Reads tag Tag.a_bytes body o h = bytes_to_monty-Reads m body o h
  plain-Reads tag Tag.an_ellipsis body o h =
      subst (Reads m (tagged "$ellipsis" body)) (ok-injective h) an_ellipsis
  plain-Reads tag Tag.a_float body o h = float_tag-Reads m body o h
  plain-Reads tag Tag.a_dict body o h = cc
  plain-Reads tag Tag.a_function body o h = function_tag-Reads m body o h
  plain-Reads tag Tag.a_path body o h = path_tag-Reads m body o h
  plain-Reads tag Tag.unsupported body o h = cc

  -- what `tagged_to_monty` makes of an array
  abbrev pub array_result : String → Tag → Items x → Result (Object x) ConvertError
  array_result tag t items = elim t [
    | Tag.a_tuple ↦ (do objects ← json_array_to_monty m items; ok (tuple objects))
    | Tag.a_set ↦ (do objects ← json_array_to_monty m items; ok (set objects))
    | Tag.a_frozen_set ↦ (do objects ← json_array_to_monty m items; ok (frozen_set objects))
    | Tag.a_dict ↦ (do pairs ← dict_tag_to_monty m items; ok (dict pairs))
    | known ↦ tagged_plain m tag known (array items)
  ]

  pub array-Reads :
      (tag : String) (t : Tag) (items : Items x) (o : Object x)
      → ((os : Objects x) → json_array_to_monty m items ≡ ok os → ReadsAll m items os)
      → ((ps : Pairs x) → dict_tag_to_monty m items ≡ ok ps → ReadsEntries m items ps)
      → array_result tag t items ≡ ok o
      → Reads m (tagged (tag_name t) (array items)) o
  unfolding tag_name
  array-Reads tag Tag.a_tuple items o all entries h =
      let (os, e, f) = >>=-eq-ok (json_array_to_monty m items) _ h in
      subst (Reads m (tagged "$tuple" (array items))) (ok-injective f) (a_tuple (all os e))
  array-Reads tag Tag.a_set items o all entries h =
      let (os, e, f) = >>=-eq-ok (json_array_to_monty m items) _ h in
      subst (Reads m (tagged "$set" (array items))) (ok-injective f) (a_set (all os e))
  array-Reads tag Tag.a_frozen_set items o all entries h =
      let (os, e, f) = >>=-eq-ok (json_array_to_monty m items) _ h in
      subst (Reads m (tagged "$frozenset" (array items))) (ok-injective f) (a_frozen_set (all os e))
  array-Reads tag Tag.a_dict items o all entries h =
      let (ps, e, f) = >>=-eq-ok (dict_tag_to_monty m items) _ h in
      subst (Reads m (tagged "$dict" (array items))) (ok-injective f) (a_dict (entries ps e))
  array-Reads tag Tag.a_bytes items o all entries h = plain-Reads tag Tag.a_bytes (array items) o h
  array-Reads tag Tag.an_ellipsis items o all entries h =
      plain-Reads tag Tag.an_ellipsis (array items) o h
  array-Reads tag Tag.a_float items o all entries h = plain-Reads tag Tag.a_float (array items) o h
  array-Reads tag Tag.a_function items o all entries h =
      plain-Reads tag Tag.a_function (array items) o h
  array-Reads tag Tag.a_path items o all entries h = plain-Reads tag Tag.a_path (array items) o h
  array-Reads tag Tag.unsupported items o all entries h =
      plain-Reads tag Tag.unsupported (array items) o h
