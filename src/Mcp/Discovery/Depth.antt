-- ===== src/Mcp/Discovery/Depth.antt =====
-- What the check of a schema bounds (crates/gateway-mcp/src/discovery.rs).
use Prim.Native.Nat.{max}
use Prim.Native.String.{len}
use mathlib.Core.Path.{subst}
use tuenel.Prelude.Words.{saturating_add}
use tuenel.Types.Mcp.{GatewayMcpTool}
use tuenel.Mcp.Errors.{McpError}
use tuenel.Prelude.{
  Option, some, Exec, pure, ◌>>◌, Bool-cases, Option-cases, map, ℕ, suc, ◌+◌, ◌≤◌, ◌≡◌, refl,
  String, List, [], ◌∷◌, All, ok, arith, ltb, true, length, Result-cases, inl, inr, string_eq,
  nat_eq,
}
use tuenel.Types.Json.{
  Value, null, bool, number, string, array, object, Items, nil, cons, Fields, end, field,
}
use tuenel.Mcp.Discovery.{
  SchemaLimits, validate_value, validate_items, validate_fields, in_depth, in_object, field_count,
  is_object, validate_tool, validate_each, validate_tools,
}

-- How deep values nest; a value without parts has depth 0.
unfoldable mutual
  pub depth_of : Value → ℕ
  depth_of null = 0
  depth_of (bool b) = 0
  depth_of (number n) = 0
  depth_of (string s) = 0
  depth_of (array items) = items_depth items
  depth_of (object fields) = fields_depth fields

  pub items_depth : Items → ℕ
  items_depth nil = 0
  items_depth (cons value items) = max (suc (depth_of value)) (items_depth items)

  pub fields_depth : Fields → ℕ
  fields_depth end = 0
  fields_depth (field key value fields) = max (suc (depth_of value)) (fields_depth fields)

module _ (limits : SchemaLimits) where
  in_depth_within :
      (depth n : ℕ) (rest : Exec ℕ McpError (Unit {0}))
      → (in_depth limits depth rest n).0 ≡ ok tt
      → (depth ≤ limits.maximum_depth) × ((rest n).0 ≡ ok tt)
  unfolding in_depth
  in_depth_within depth n rest h = elim (Bool-cases (ltb limits.maximum_depth depth)) [
    | inl over ↦ absurd (ground (arith, over, h))
    | inr under ↦ (ground (arith, under), ground (arith, under, h))
  ]

  in_object_within :
      (fields : Fields) (n : ℕ) (rest : Exec ℕ McpError (Unit {0}))
      → (in_object limits fields rest n).0 ≡ ok tt
      → (rest (saturating_add n (field_count fields))).0 ≡ ok tt
  unfolding in_object
  in_object_within fields n rest h = ground (arith, h)

  then_ok :
      (f g : Exec ℕ McpError (Unit {0})) (n : ℕ)
      → ((f >> g) n).0 ≡ ok tt
      → ((f n).0 ≡ ok tt) × ((g (f n).1).0 ≡ ok tt)
  then_ok f g n h = elim (Result-cases (f n).0) [
    | inl done ↦ (ground (arith, done.1), ground (arith, done.1, h))
    | inr failed ↦ absurd (ground (arith, failed.1, h))
  ]

  mutual
    unfolding validate_value depth_of

    value_within :
        (value : Value) (depth n : ℕ)
        → (validate_value limits value depth n).0 ≡ ok tt
        → depth + depth_of value ≤ limits.maximum_depth
    value_within null depth n h = omega (arith, (in_depth_within depth n (pure tt) h).0)
    value_within (bool b) depth n h = omega (arith, (in_depth_within depth n (pure tt) h).0)
    value_within (number t) depth n h = omega (arith, (in_depth_within depth n (pure tt) h).0)
    value_within (string s) depth n h = omega (arith, (in_depth_within depth n _ h).0)
    value_within (array items) depth n h =
        let split = in_depth_within depth n (validate_items limits items depth) h in
        items_within items depth n split.0 split.1
    value_within (object fields) depth n h =
        let rest = validate_fields limits fields depth in
        let split = in_depth_within depth n (in_object limits fields rest) h in
        fields_within fields depth (saturating_add n (field_count fields)) split.0
          (in_object_within fields n rest split.1)

    items_within :
        (items : Items) (depth n : ℕ)
        → depth ≤ limits.maximum_depth
        → (validate_items limits items depth n).0 ≡ ok tt
        → depth + items_depth items ≤ limits.maximum_depth
    items_within nil depth n h k = omega (arith, h)
    items_within (cons value items) depth n h k =
        let both =
          then_ok (validate_value limits value (suc depth)) (validate_items limits items depth) n
            k in
        omega (
          arith,
          value_within value (suc depth) n both.0,
          items_within items depth (validate_value limits value (suc depth) n).1 h both.1,
        )

    fields_within :
        (fields : Fields) (depth n : ℕ)
        → depth ≤ limits.maximum_depth
        → (validate_fields limits fields depth n).0 ≡ ok tt
        → depth + fields_depth fields ≤ limits.maximum_depth
    fields_within end depth n h k = omega (arith, h)
    fields_within (field key value fields) depth n h k =
        let both =
          then_ok (validate_value limits value (suc depth)) (validate_fields limits fields depth) n
            k in
        omega (
          arith,
          value_within value (suc depth) n both.0,
          fields_within fields depth (validate_value limits value (suc depth) n).1 h both.1,
        )

module _ (to_vec : Value → Option String) (sha256 : String → String) (limits : SchemaLimits) where
  -- What the check of a tool guarantees of an entry.
  abbrev pub IsValid : GatewayMcpTool × String → Type 0
  IsValid entry =
      (len entry.0.tool_name ≤ 255)
      × (depth_of entry.0.input_schema ≤ limits.maximum_depth)
      × (is_object entry.0.input_schema ≡ true)
      × ((encoded : String) × (to_vec entry.0.input_schema ≡ some encoded)
          × (len encoded ≤ limits.maximum_bytes)
          × (entry.1 ≡ sha256 encoded))

  validate_tool-IsValid :
      (tool : GatewayMcpTool) (entry : GatewayMcpTool × String)
      → validate_tool to_vec sha256 limits tool ≡ ok entry
      → IsValid entry
  unfolding validate_tool
  validate_tool-IsValid tool entry h = elim (Option-cases (to_vec tool.input_schema)) [
    | inl bad ↦ absurd (ground (arith, bad, h))
    | inr found ↦ elim (Result-cases (validate_value limits tool.input_schema 0 0).0) [
      | inr failed ↦ absurd (ground (arith, found.1, failed.1, h))
      | inl done ↦
          let same : (tool, sha256 found.0) ≡ entry = ground (arith, found.1, done.1, h) in
          subst IsValid same (
            ground (arith, found.1, done.1, h),
            omega (arith, value_within limits tool.input_schema 0 0 done.1),
            ground (arith, found.1, done.1, h),
            (found.0, found.1, ground (arith, found.1, done.1, h), refl),
          )
    ]
  ]

  -- The entries are valid and stand for the tools, in their order.
  abbrev pub Checks : List GatewayMcpTool → List (GatewayMcpTool × String) → Type 0
  Checks tools entries =
      (All IsValid entries) × (map (λ (e : GatewayMcpTool × String). e.0) entries ≡ tools)

  validate_tool-tool :
      (tool : GatewayMcpTool) (entry : GatewayMcpTool × String)
      → validate_tool to_vec sha256 limits tool ≡ ok entry
      → entry.0 ≡ tool
  unfolding validate_tool
  validate_tool-tool tool entry h = ground (arith, h)

  validate_each-Checks :
      (tools : List GatewayMcpTool) (entries : List (GatewayMcpTool × String))
      → validate_each to_vec sha256 limits tools ≡ ok entries
      → Checks tools entries
  unfolding validate_each
  validate_each-Checks [] entries h =
      let same : [] ≡ entries = ground (arith, h) in subst (Checks []) same (tt, refl)
  validate_each-Checks (tool ∷ tools) entries h =
      elim (Result-cases (validate_tool to_vec sha256 limits tool)) [
        | inr bad ↦ absurd (ground (arith, bad.1, h))
        | inl first ↦ elim (Result-cases (validate_each to_vec sha256 limits tools)) [
          | inr bad ↦ absurd (ground (arith, first.1, bad.1, h))
          | inl rest ↦
              let same : (first.0 ∷ rest.0) ≡ entries = ground (arith, first.1, rest.1, h) in
              let later = validate_each-Checks tools rest.0 rest.1 in
              subst (Checks (tool ∷ tools)) same (
                (validate_tool-IsValid tool first.0 first.1, later.0),
                ground (arith, validate_tool-tool tool first.0 first.1, later.1),
              )
        ]
      ]

  -- If the check of a server's tools passes, there are at most 10,000 of them, and the result is
  -- the same tools in the same order, each with a name of at most 255 bytes and a schema that is an
  -- object, nests no deeper than the limit and has a text of at most the limit of bytes, of which
  -- the hash stands beside it.
  pub validate_tools-Checks :
      (tools : List GatewayMcpTool) (entries : List (GatewayMcpTool × String))
      → validate_tools to_vec sha256 limits tools ≡ ok entries
      → (length tools ≤ 10000) × Checks tools entries
  unfolding validate_tools
  validate_tools-Checks tools entries h = elim (Bool-cases (ltb 10000 (length tools))) [
    | inl over ↦ absurd (ground (arith, over, h))
    | inr under ↦
        (ground (arith, under), validate_each-Checks tools entries (ground (arith, under, h)))
  ]
