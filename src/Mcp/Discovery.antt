-- ===== src/Mcp/Discovery.antt =====
-- crates/gateway-mcp/src/discovery.rs: the check of the tools that a server lists. The text of a
-- JSON value and its hash are parameters.
pub mod Depth
use Prim.Native.String.{len}
use text.Mathlib.Text.{starts_with}
use tuenel.Prelude.{
  ℕ, suc, ◌+◌, String, Bool, true, false, not, ◌&&◌, ◌||◌, Option, none, some, List, [], ◌∷◌,
  Result, ok, err, Exec, ltb, if◌then◌else◌, length, contains, any, ◌==◌, string_eq, ◌>>=◌, ◌>>◌,
  raise, pure, nat_eq,
}
use tuenel.Prelude.Words.{saturating_add}
use tuenel.Types.Json.{
  Value, null, bool, number, string, array, object, Items, nil, cons, Fields, end, field,
}
use tuenel.Types.Mcp.{GatewayMcpTool}
use tuenel.Mcp.Errors.{McpError, invalid, too_large}

pub record SchemaLimits : Type 0 where
  pub maximum_bytes : ℕ
  pub maximum_depth : ℕ
  pub maximum_properties : ℕ
  pub maximum_string_bytes : ℕ

abbrev pub default_limits : SchemaLimits
default_limits = record {
  maximum_bytes = 262144;
  maximum_depth = 32;
  maximum_properties = 1024;
  maximum_string_bytes = 65536;
}

abbrev pub valid_type : String → Bool
valid_type value =
    contains ("null" ∷ "boolean" ∷ "object" ∷ "array" ∷ "number" ∷ "integer" ∷ "string" ∷ []) value

-- `Map::get`
unfoldable pub lookup : Fields → String → Option Value
lookup end name = none
lookup (field key value fields) name = if key == name then some value else lookup fields name

-- `Map::len`
unfoldable pub field_count : Fields → ℕ
field_count end = 0
field_count (field key value fields) = suc (field_count fields)

abbrev pub as_str : Value → Option String
as_str (string text) = some text
as_str null = none
as_str (bool b) = none
as_str (number n) = none
as_str (array items) = none
as_str (object fields) = none

abbrev pub is_object : Value → Bool
is_object (object fields) = true
is_object null = false
is_object (bool b) = false
is_object (number n) = false
is_object (string s) = false
is_object (array items) = false

-- `values.iter().all(test)` on an array
unfoldable pub all_items : (Value → Bool) → Items → Bool
all_items test nil = true
all_items test (cons value items) = test value && all_items test items

abbrev pub str_is : (String → Bool) → Value → Bool
str_is test value = elim (as_str value) [ none ↦ false | some text ↦ test text ]

abbrev pub is_nil : Items → Bool
is_nil nil = true
is_nil (cons value items) = false

-- The test of "type".
unfoldable pub is_kind : Value → Bool
is_kind (string text) = valid_type text
is_kind (array items) = not (is_nil items) && all_items (str_is valid_type) items
is_kind null = false
is_kind (bool b) = false
is_kind (number n) = false
is_kind (object fields) = false

-- The test of "required".
unfoldable pub is_required : Value → Bool
is_required (array items) = all_items (str_is (λ text. true)) items
is_required null = false
is_required (bool b) = false
is_required (number n) = false
is_required (string s) = false
is_required (object fields) = false

-- A test of a member, if it is there.
abbrev pub member : (Value → Bool) → Option Value → Bool
member test none = true
member test (some value) = test value

-- `$ref` is a text that starts with "#/", or no text.
abbrev pub is_local_ref : Value → Bool
is_local_ref value = elim (as_str value) [ none ↦ true | some text ↦ starts_with text "#/" ]

-- The tests of an object's own members.
unfoldable pub is_schema : Fields → Bool
is_schema fields =
    member is_kind (lookup fields "type")
    && (member is_object (lookup fields "properties")
        && (member is_required (lookup fields "required")
            && member is_local_ref (lookup fields "$ref")))

-- A description over the limit.
abbrev pub is_long : ℕ → Option String → Bool
is_long limit none = false
is_long limit (some text) = ltb limit (len text)

-- The "type" of a schema is "object", or no text.
abbrev pub is_object_name : Option Value → Bool
is_object_name none = true
is_object_name (some value) = elim (as_str value) [ none ↦ true | some text ↦ text == "object" ]

abbrev pub names_object : Value → Bool
names_object (object fields) = is_object_name (lookup fields "type")
names_object null = true
names_object (bool b) = true
names_object (number n) = true
names_object (string s) = true
names_object (array items) = true

-- The first test of a value.
unfoldable pub in_depth : SchemaLimits → ℕ → Exec ℕ McpError (Unit {0}) → Exec ℕ McpError (Unit {0})
in_depth limits depth rest n = if ltb limits.maximum_depth depth then (err too_large, n) else rest n

-- The tests of an object, before those of its values.
unfoldable pub in_object :
    SchemaLimits → Fields → Exec ℕ McpError (Unit {0}) → Exec ℕ McpError (Unit {0})
in_object limits fields rest n =
    let total = saturating_add n (field_count fields) in
    if ltb limits.maximum_properties total
    then (err too_large, total)
    else if not (is_schema fields)
    then (err invalid, total)
    else rest total

-- The state is the count of properties so far.
unfoldable mutual
  pub validate_value : SchemaLimits → Value → ℕ → Exec ℕ McpError (Unit {0})
  validate_value limits null depth n = in_depth limits depth (pure tt) n
  validate_value limits (bool b) depth n = in_depth limits depth (pure tt) n
  validate_value limits (number text) depth n = in_depth limits depth (pure tt) n
  validate_value limits (string text) depth n =
      in_depth limits depth
        (if ltb limits.maximum_string_bytes (len text) then raise too_large else pure tt) n
  validate_value limits (array items) depth n =
      in_depth limits depth (validate_items limits items depth) n
  validate_value limits (object fields) depth n =
      in_depth limits depth (in_object limits fields (validate_fields limits fields depth)) n

  pub validate_items : SchemaLimits → Items → ℕ → Exec ℕ McpError (Unit {0})
  validate_items limits nil depth n = pure tt n
  validate_items limits (cons value items) depth n =
      (validate_value limits value (suc depth) >> validate_items limits items depth) n

  pub validate_fields : SchemaLimits → Fields → ℕ → Exec ℕ McpError (Unit {0})
  validate_fields limits end depth n = pure tt n
  validate_fields limits (field key value fields) depth n =
      (validate_value limits value (suc depth) >> validate_fields limits fields depth) n

-- The check of one tool, with the text of its schema and the hash of that.
unfoldable pub validate_tool :
    (Value → Option String)
    → (String → String)
    → SchemaLimits
    → GatewayMcpTool
    → Result McpError (GatewayMcpTool × String)
validate_tool to_vec sha256 limits tool =
    if (len tool.tool_name == 0) || ltb 255 (len tool.tool_name)
    then err invalid
    else if is_long limits.maximum_string_bytes tool.description
    then err too_large
    else elim (to_vec tool.input_schema) [
      | none ↦ err invalid
      | some encoded ↦
          if ltb limits.maximum_bytes (len encoded)
          then err too_large
          else elim (validate_value limits tool.input_schema 0 0).0 [
            | err e ↦ err e
            | ok _ ↦
                if not (is_object tool.input_schema) || not (names_object tool.input_schema)
                then err invalid
                else ok (tool, sha256 encoded)
          ]
    ]

-- The loop over the tools: the first error is the result.
unfoldable pub validate_each :
    (Value → Option String)
    → (String → String)
    → SchemaLimits
    → List GatewayMcpTool
    → Result McpError (List (GatewayMcpTool × String))
validate_each to_vec sha256 limits [] = ok []
validate_each to_vec sha256 limits (tool ∷ tools) = elim (validate_tool to_vec sha256 limits tool) [
  | err e ↦ err e
  | ok entry ↦ elim (validate_each to_vec sha256 limits tools) [
    | err e ↦ err e
    | ok entries ↦ ok (entry ∷ entries)
  ]
]

unfoldable pub validate_tools :
    (Value → Option String)
    → (String → String)
    → SchemaLimits
    → List GatewayMcpTool
    → Result McpError (List (GatewayMcpTool × String))
validate_tools to_vec sha256 limits tools =
    if ltb 10000 (length tools) then err too_large else validate_each to_vec sha256 limits tools
