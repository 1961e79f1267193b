-- ===== src/Config/DataTypes.antt =====
-- `ModelConfigDataTypeToTritonServerDataType` of src/backend_common.cc.
use Prim.Native.Char.{code}
use Prim.Native.String
use Prim.Native.String.{String}
use text.Mathlib.TextEquality.{Char-path}
use text.Mathlib.TextLemmas.{nil-append, cons-append}
use backend_radius_ai.Prelude.{
  ◌≡◌, ◌≢◌, ◌↔◌, refl, ap, ◌∙◌, sym, true, Option, none, some, ◌==◌, if◌then◌else◌, arith,
  Bool-cases, Option-cases, inl, inr,
}
use backend_radius_ai.Prelude.Strings.{eq_string, eq_string_iff}
use backend_radius_ai.Triton.{
  DataType, invalid, bool, uint8, uint16, uint32, uint64, int8, int16, int32, int64, fp16, fp32,
  fp64, bytes, bf16,
}

-- What is behind the prefix, where the text starts with it.
unfoldable strip_prefix : String → String → Option String
strip_prefix String.[] s = some s
strip_prefix (String.◌∷◌ c p) String.[] = none
strip_prefix (String.◌∷◌ c p) (String.◌∷◌ d s) = if code c == code d then strip_prefix p s else none

-- The chain of tests.
unfoldable named_data_type : String → DataType
unfolding eq_string
named_data_type dtype =
    if eq_string dtype "BOOL"
    then bool
    else if eq_string dtype "UINT8"
    then uint8
    else if eq_string dtype "UINT16"
    then uint16
    else if eq_string dtype "UINT32"
    then uint32
    else if eq_string dtype "UINT64"
    then uint64
    else if eq_string dtype "INT8"
    then int8
    else if eq_string dtype "INT16"
    then int16
    else if eq_string dtype "INT32"
    then int32
    else if eq_string dtype "INT64"
    then int64
    else if eq_string dtype "FP16"
    then fp16
    else if eq_string dtype "FP32"
    then fp32
    else if eq_string dtype "FP64"
    then fp64
    else if eq_string dtype "STRING"
    then bytes
    else if eq_string dtype "BF16"
    then bf16
    else invalid

-- `ModelConfigDataTypeToTritonServerDataType`
unfoldable pub data_type_of : String → DataType
unfolding strip_prefix named_data_type
data_type_of data_type_str = elim (strip_prefix "TYPE_" data_type_str) [
  | none ↦ invalid
  | some dtype ↦ named_data_type dtype
]

-- The names of the types behind "TYPE_".
abbrev pub type_name : DataType → String
type_name invalid = "INVALID"
type_name bool = "BOOL"
type_name uint8 = "UINT8"
type_name uint16 = "UINT16"
type_name uint32 = "UINT32"
type_name uint64 = "UINT64"
type_name int8 = "INT8"
type_name int16 = "INT16"
type_name int32 = "INT32"
type_name int64 = "INT64"
type_name fp16 = "FP16"
type_name fp32 = "FP32"
type_name fp64 = "FP64"
type_name bytes = "STRING"
type_name bf16 = "BF16"

none≢some : (r : String) → none ≢ some r
none≢some r e = cc

strip_prefix-append : (p s r : String) → strip_prefix p s ≡ some r → s ≡ String.◌++◌ p r
unfolding strip_prefix
strip_prefix-append String.[] s r e = cc (nil-append r)
strip_prefix-append (String.◌∷◌ c p) String.[] r e = cc
strip_prefix-append (String.◌∷◌ c p) (String.◌∷◌ d s) r e = elim (Bool-cases (code c == code d)) [
  | inl same ↦
      let here : d ≡ c = Char-path d c (ground (arith, same)) in
      let rest = strip_prefix-append p s r (rw same at e) in rw (here, rest, cons-append c p r) refl
  | inr other ↦ absurd (none≢some r (rw other at e))
]

strip_prefix_self : (p r : String) → strip_prefix p (String.◌++◌ p r) ≡ some r
unfolding strip_prefix
strip_prefix_self String.[] r = rw (nil-append r)
strip_prefix_self (String.◌∷◌ c p) r =
    let same : (code c == code c) ≡ true = ground arith in
    rw (cons-append c p r) (rw same (strip_prefix_self p r))

named_data_type-name : (t : DataType) → t ≢ invalid → named_data_type (type_name t) ≡ t
unfolding named_data_type
named_data_type-name invalid valid = absurd (valid refl)
named_data_type-name t valid = refl

-- One test of the chain.
test :
    (s : String) (x rest t : DataType)
    → (if eq_string s (type_name x) then x else rest) ≡ t
    → (rest ≡ t → s ≡ type_name t)
    → s ≡ type_name t
test s x rest t e later = elim (Bool-cases (eq_string s (type_name x))) [
  | inl same ↦
      let here : x ≡ t = rw same at e in (eq_string_iff s (type_name x)).0 same ∙ ap type_name here
  | inr other ↦ later (rw other at e)
]

named_data_type-inv :
    (s : String) (t : DataType) → t ≢ invalid → named_data_type s ≡ t → s ≡ type_name t
unfolding named_data_type
named_data_type-inv s t valid e = test s bool _ t e (λ e. test s uint8 _ t e (λ e.
    test s uint16 _ t e (λ e. test s uint32 _ t e (λ e. test s uint64 _ t e (λ e.
      test s int8 _ t e (λ e. test s int16 _ t e (λ e. test s int32 _ t e (λ e.
        test s int64 _ t e (λ e. test s fp16 _ t e (λ e. test s fp32 _ t e (λ e.
          test s fp64 _ t e (λ e.
            test s bytes _ t e (λ e. test s bf16 _ t e (λ e. absurd (valid (sym e))))))))))))))))

-- A data type other than the invalid one is the result exactly for its own name behind "TYPE_".
pub data_type_of_iff :
    (s : String) (t : DataType)
    → t ≢ invalid
    → (data_type_of s ≡ t) ↔ (s ≡ String.◌++◌ "TYPE_" (type_name t))
unfolding data_type_of
data_type_of_iff s t valid = (to, from)
  where
    to : data_type_of s ≡ t → s ≡ String.◌++◌ "TYPE_" (type_name t)
    to e = elim (Option-cases (strip_prefix "TYPE_" s)) [
      | inl none_behind ↦ absurd (valid (sym (rw (none_behind, data_type_of) at e)))
      | inr (d, behind) ↦
          let named : named_data_type d ≡ t = rw (behind, data_type_of) at e in
          rw (← named_data_type-inv d t valid named) (strip_prefix-append "TYPE_" s d behind)
    ]

    from : s ≡ String.◌++◌ "TYPE_" (type_name t) → data_type_of s ≡ t
    from e =
        let behind : strip_prefix "TYPE_" s ≡ some (type_name t) =
          rw e (strip_prefix_self "TYPE_" (type_name t)) in
        rw (behind, data_type_of) (named_data_type-name t valid)
