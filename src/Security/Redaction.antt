-- ===== src/Security/Redaction.antt =====
-- crates/gateway-security/src/redaction.rs: the redaction of texts and JSON values. An index counts
-- bytes; `replace_range` panics on an index inside a character, which is `none` here. `to_string`
-- and `from_str` are serde_json's.
pub mod Spans
use Prim.Native.Nat.{max}
use Prim.Native.String.{len, slice, ◌++◌ as append}
use text.Mathlib.Text.{is_char_boundary}
use mathlib.Core.List.{filter_map, foldl}
use tuenel.Prelude.{
  ℕ, String, Bool, true, false, ◌&&◌, Option, none, some, List, [], ◌∷◌, filter, ltb, leb, nat_beq,
  if◌then◌else◌,
}
use tuenel.Types.Json.{
  Value, null, bool, number, string, array, object, Items, nil, cons, Fields, end, field,
}
use tuenel.Types.Security.{
  SanitizedEvidence, InspectionContent, prompt_text, structured_input, tool_arguments, tool_result,
  model_output,
}

abbrev pub Span : Type 0
Span = ℕ × ℕ

-- `Some((item.start?, item.end?))`
abbrev pub span_of : SanitizedEvidence → Option Span
span_of item = elim item.start [
  | none ↦ none
  | some from ↦ elim item.end [ none ↦ none | some to ↦ some (from, to) ]
]

-- The spans that stand in a text of `n` bytes.
unfoldable pub valid_spans : ℕ → List SanitizedEvidence → List Span
valid_spans n evidence = filter (λ s. ltb s.0 s.1 && leb s.1 n) (filter_map span_of evidence)

-- The order of pairs.
abbrev pub span_leb : Span → Span → Bool
span_leb s t = if ltb s.0 t.0 then true else nat_beq s.0 t.0 && leb s.1 t.1

unfoldable pub insert_span : Span → List Span → List Span
insert_span s [] = s ∷ []
insert_span s (t ∷ ts) =
    let rest = insert_span s ts in if span_leb s t then s ∷ t ∷ ts else t ∷ rest

unfoldable pub sort_spans : List Span → List Span
sort_spans [] = []
sort_spans (s ∷ ss) = insert_span s (sort_spans ss)

-- The closure of the fold: the last span grows, or the new one is pushed.
unfoldable pub push_span : List Span → Span → List Span
push_span [] s = s ∷ []
push_span (last ∷ []) s = if leb s.0 last.1 then (last.0, max last.1 s.1) ∷ [] else last ∷ s ∷ []
push_span (m ∷ n ∷ merged) s = m ∷ push_span (n ∷ merged) s

unfoldable pub merge_spans : List Span → List Span
merge_spans spans = foldl push_span [] spans

unfoldable pub replace_range : String → Span → Option String
replace_range text s =
    if is_char_boundary text s.0 && is_char_boundary text s.1
    then some (append (append (slice text 0 s.0) "[REDACTED]") (slice text s.1 (len text)))
    else none

-- The loop over the spans from the last to the first.
unfoldable pub replace_spans : String → List Span → Option String
replace_spans text [] = some text
replace_spans text (s ∷ spans) = elim (replace_spans text spans) [
  | none ↦ none
  | some output ↦ replace_range output s
]

unfoldable pub redact_text : String → List SanitizedEvidence → Option String
redact_text value evidence =
    replace_spans value (merge_spans (sort_spans (valid_spans (len value) evidence)))

mutual
  pub fully_redact_strings : Value → Value
  fully_redact_strings null = null
  fully_redact_strings (bool b) = bool b
  fully_redact_strings (number n) = number n
  fully_redact_strings (string _) = string "[REDACTED]"
  fully_redact_strings (array items) = array (redact_items items)
  fully_redact_strings (object fields) = object (redact_fields fields)

  pub redact_items : Items → Items
  redact_items nil = nil
  redact_items (cons v items) = cons (fully_redact_strings v) (redact_items items)

  pub redact_fields : Fields → Fields
  redact_fields end = end
  redact_fields (field k v fields) = field k (fully_redact_strings v) (redact_fields fields)

module _ (to_string : Value → Option String) (from_str : String → Option Value) where
  abbrev pub unwrap_or_default : Option String → String
  unwrap_or_default none = ""
  unwrap_or_default (some text) = text

  unfoldable pub redact_json : Value → List SanitizedEvidence → Option Value
  redact_json value evidence = elim (redact_text (unwrap_or_default (to_string value)) evidence) [
    | none ↦ none
    | some text ↦ elim (from_str text) [
      | none ↦ some (fully_redact_strings value)
      | some parsed ↦ some parsed
    ]
  ]

  abbrev pub as_content {ℓ} :
      {A : Type ℓ} → (A → InspectionContent) → Option A → Option InspectionContent
  as_content f none = none
  as_content f (some a) = some (f a)

  unfoldable pub redact : InspectionContent → List SanitizedEvidence → Option InspectionContent
  redact (prompt_text value) evidence = as_content prompt_text (redact_text value evidence)
  redact (model_output value) evidence = as_content model_output (redact_text value evidence)
  redact (structured_input value) evidence =
      as_content structured_input (redact_json value evidence)
  redact (tool_arguments value) evidence = as_content tool_arguments (redact_json value evidence)
  redact (tool_result value) evidence = as_content tool_result (redact_json value evidence)
