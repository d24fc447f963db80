-- ===== src/Convert/Format/Leaves.antt =====
-- Numbers, bytes, floats, function names and paths that src/convert.rs reads are of the input format.
use monty_server.Common.{
  ℕ, ◌≡◌, sym, subst, String, str_eq, eq_iff, true, Option, none, some, List, ◌∷◌, ok, >>=-eq-ok,
  ok-injective, arith, Bool-cases, Option-cases, Result-cases, inl, inr, ◌≤◌,
}
use monty_server.External.{
  Types, Externals, Value, null, bool, number, string, array, object, Items, nil, cons, Object,
  float,
}
use monty_server.Convert.{
  bytes_of, number_to_monty, contains_point, bytes_to_monty, float_tag_to_monty,
  function_tag_to_monty, path_tag_to_monty, value_as_u64, byte_of,
}
use monty_server.Convert.Format.{
  tagged, ReadsBytes, no_bytes, byte, Reads, an_integer, a_float, base64_bytes, listed_bytes, a_nan,
  an_infinity, a_neg_infinity, a_function, a_path,
}

module _ {x : Types} (m : Externals x) where
  pub number_to_monty-Reads :
      (n : x.Number) (o : Object x) → number_to_monty m n ≡ ok o → Reads m (number n) o
  unfolding number_to_monty
  number_to_monty-Reads n o h = elim (Option-cases (m.as_i64 n)) [
    | inr (i, e) ↦ subst (Reads m (number n)) (ground (arith, e, h)) (an_integer {i = i} e)
    | inl none_e ↦ elim (Bool-cases (contains_point (m.literal n))) [
      | inr no_point ↦ ground (arith, none_e, no_point, h)
      | inl point ↦ elim (Option-cases (m.as_f64 n)) [
        | inl no_float ↦ ground (arith, none_e, point, no_float, h)
        | inr (f, e) ↦
            subst (Reads m (number n)) (ground (arith, none_e, point, e, h))
              (a_float {f = f} none_e point e)
      ]
    ]
  ]

  byte_of-eq-ok : (o : Option ℕ) {b : ℕ} → byte_of m o ≡ ok b → (o ≡ some b) × (b ≤ 255)
  unfolding byte_of
  byte_of-eq-ok none h = cc
  byte_of-eq-ok (some n) h = (ground (arith, h), ground (arith, h))

  bytes_of-Reads :
      (items : Items x) (bs : List ℕ) → bytes_of m items ≡ ok bs → ReadsBytes m items bs
  unfolding bytes_of
  bytes_of-Reads nil bs h = subst (ReadsBytes m nil) (ok-injective h) no_bytes
  bytes_of-Reads (cons v items) bs h =
      let (b, e, f) = >>=-eq-ok (byte_of m (value_as_u64 m v)) _ h in
      let (rest, e', f') = >>=-eq-ok (bytes_of m items) _ f in
      subst (ReadsBytes m (cons v items)) (ok-injective f')
        (head v b (byte_of-eq-ok (value_as_u64 m v) e) (bytes_of-Reads items rest e'))
    where
      head :
          (w : Value x) (b : ℕ) {is : Items x} {rest : List ℕ}
          → (value_as_u64 m w ≡ some b) × (b ≤ 255)
          → ReadsBytes m is rest
          → ReadsBytes m (cons w is) (b ∷ rest)
      head (number n) b (e, le) r = byte e le r
      head null b (e, le) r = cc
      head (bool c) b (e, le) r = cc
      head (string s) b (e, le) r = cc
      head (array is) b (e, le) r = cc
      head (object fs) b (e, le) r = cc

  pub bytes_to_monty-Reads :
      (body : Value x) (o : Object x)
      → bytes_to_monty m body ≡ ok o
      → Reads m (tagged "$bytes" body) o
  unfolding bytes_to_monty
  bytes_to_monty-Reads (string s) o h = elim (Result-cases (m.base64_decode s)) [
    | inl (bs, e) ↦
        subst (Reads m (tagged "$bytes" (string s))) (ground (arith, e, h))
          (base64_bytes {bs = bs} e)
    | inr (f, e) ↦ ground (arith, e, h)
  ]
  bytes_to_monty-Reads (array items) o h =
      let (bs, e, f) = >>=-eq-ok (bytes_of m items) _ h in
      subst (Reads m (tagged "$bytes" (array items))) (ok-injective f)
        (listed_bytes (bytes_of-Reads items bs e))
  bytes_to_monty-Reads null o h = cc
  bytes_to_monty-Reads (bool b) o h = cc
  bytes_to_monty-Reads (number n) o h = cc
  bytes_to_monty-Reads (object fs) o h = cc

  -- A text that is tested and found to be `known`.
  spelled_float :
      (s known : String) (f : x.Float) (o : Object x)
      → str_eq s known ≡ true
      → float f ≡ o
      → Reads m (tagged "$float" (string known)) (float f)
      → Reads m (tagged "$float" (string s)) o
  spelled_float s known f o e same h = subst (Reads m (tagged "$float" (string s))) same (
      subst (λ (w : String). Reads m (tagged "$float" (string w)) (float f))
        (sym ((eq_iff s known).0 e)) h)

  pub float_tag-Reads :
      (body : Value x) (o : Object x)
      → float_tag_to_monty m body ≡ ok o
      → Reads m (tagged "$float" body) o
  unfolding float_tag_to_monty
  float_tag-Reads (string s) o h = elim (Bool-cases (str_eq s "nan")) [
    | inl e ↦ spelled_float s "nan" m.nan o e (ground (arith, e, h)) a_nan
    | inr n1 ↦ elim (Bool-cases (str_eq s "inf")) [
      | inl e ↦ spelled_float s "inf" m.infinity o e (ground (arith, n1, e, h)) an_infinity
      | inr n2 ↦ elim (Bool-cases (str_eq s "-inf")) [
        | inl e ↦
            spelled_float s "-inf" m.neg_infinity o e (ground (arith, n1, n2, e, h)) a_neg_infinity
        | inr n3 ↦ ground (arith, n1, n2, n3, h)
      ]
    ]
  ]
  float_tag-Reads null o h = cc
  float_tag-Reads (bool b) o h = cc
  float_tag-Reads (number n) o h = cc
  float_tag-Reads (array is) o h = cc
  float_tag-Reads (object fs) o h = cc

  pub function_tag-Reads :
      (body : Value x) (o : Object x)
      → function_tag_to_monty m body ≡ ok o
      → Reads m (tagged "$function" body) o
  unfolding function_tag_to_monty
  function_tag-Reads (string name) o h =
      subst (Reads m (tagged "$function" (string name))) (ok-injective h) a_function
  function_tag-Reads null o h = cc
  function_tag-Reads (bool b) o h = cc
  function_tag-Reads (number n) o h = cc
  function_tag-Reads (array is) o h = cc
  function_tag-Reads (object fs) o h = cc

  pub path_tag-Reads :
      (body : Value x) (o : Object x)
      → path_tag_to_monty m body ≡ ok o
      → Reads m (tagged "$path" body) o
  unfolding path_tag_to_monty
  path_tag-Reads (string p) o h =
      subst (Reads m (tagged "$path" (string p))) (ok-injective h) a_path
  path_tag-Reads null o h = cc
  path_tag-Reads (bool b) o h = cc
  path_tag-Reads (number n) o h = cc
  path_tag-Reads (array is) o h = cc
  path_tag-Reads (object fs) o h = cc
