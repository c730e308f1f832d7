-- ===== src/Mcp/Policy/Tighter.antt =====
-- A child policy on MCP tools never weakens the denials, the actions and the limits of a parent
-- (crates/gateway-mcp/src/policy.rs).
use tuenel.Prelude.{
  ℕ, String, ◌≡◌, ◌≤◌, true, not, ◌||◌, Option, none, some, List, [], ◌∷◌, All, arith, ltb,
  contains, filter, Option-cases, Bool-cases, inl, inr, string_eq, nat_eq, Eq, contains-append,
  contains-filter,
}
use mathlib.Core.List.{foldl}
use tuenel.Prelude.Maps.{HashMap, get, get-insert}
use tuenel.Types.Security.{priority}
use tuenel.Policy.{min_opt}
use tuenel.Mcp.Policy.{
  McpPolicy, risk_priority, union, merge_one, merge_max, restrict_with, resolve_mcp_hierarchy,
  default_policy,
}

-- What the first set has, the second has.
abbrev pub Keeps : {A : Type 0} ⦃e : Eq A⦄ → List A → List A → Type 0
Keeps {A} xs ys = (x : A) → contains xs x ≡ true → contains ys x ≡ true

-- What the first map has, the second has, with a key at least as great.
abbrev pub Rises : {V : Type 0} → (V → ℕ) → HashMap String V → HashMap String V → Type 0
Rises {V} key m n =
    (name : String) (v : V)
    → get m name ≡ some v
    → (u : V) × (get n name ≡ some u) × (key v ≤ key u)

-- A limit is kept or lowered.
abbrev pub Lowers : Option ℕ → Option ℕ → Type 0
Lowers none right = Unit
Lowers (some a) none = ⊥
Lowers (some a) (some b) = b ≤ a

-- The second policy is at least as strict as the first, its allowlists and its restrictions of
-- arguments aside.
abbrev pub IsTighter : McpPolicy → McpPolicy → Type 0
IsTighter p q =
    Keeps p.denied_servers q.denied_servers
    × Keeps p.denied_tools q.denied_tools
    × Rises priority p.tool_actions q.tool_actions
    × Rises risk_priority p.risk_overrides q.risk_overrides
    × Lowers p.maximum_calls_per_minute q.maximum_calls_per_minute
    × Lowers p.maximum_calls_per_day q.maximum_calls_per_day
    × Lowers p.maximum_server_concurrent_calls q.maximum_server_concurrent_calls
    × Lowers p.maximum_tool_concurrent_calls q.maximum_tool_concurrent_calls
    × Lowers p.maximum_request_bytes q.maximum_request_bytes
    × Lowers p.maximum_response_bytes q.maximum_response_bytes
    × Lowers p.maximum_execution_ms q.maximum_execution_ms

module _ {A : Type 0} ⦃e : Eq A⦄ where
  union-contains :
      (xs ys : List A) (x : A) → contains (union xs ys) x ≡ (contains xs x || contains ys x)
  unfolding union
  union-contains xs ys x = ground (
    arith,
    contains-append xs (filter (λ y. not (contains xs y)) ys) x,
    contains-filter (λ y. not (contains xs y)) ys x,
  )

module _ {V : Type 0} (key : V → ℕ) where
  Rises-refl : (m : HashMap String V) → Rises key m m
  Rises-refl m name v h = (v, h, omega arith)

  Rises-trans : (m n o : HashMap String V) → Rises key m n → Rises key n o → Rises key m o
  Rises-trans m n o h k name v held =
      let first = h name v held in
      let second = k name first.0 first.1 in (second.0, second.1, omega (arith, first.2, second.2))

  merge_one-left :
      (m : HashMap String V) (name : String) (v : V) → Rises key m (merge_one key m name v)
  unfolding merge_one
  merge_one-left m name v other u held = elim (Option-cases (get m name)) [
    | inl missing ↦ (
      u,
      ground (arith, missing, held, get-insert m name v other, string_eq.beq_iff name other),
      omega arith,
    )
    | inr found ↦ elim (Bool-cases (ltb (key found.0) (key v))) [
      | inr same ↦ (u, ground (arith, found.1, same, held), omega arith)
      | inl more ↦ elim (Bool-cases (string_eq.beq name other)) [
        | inl eq ↦ (
          v,
          ground (arith, found.1, more, eq, get-insert m name v other),
          ground (arith, found.1, more, held, eq, string_eq.beq_iff name other),
        )
        | inr ne ↦
            (u, ground (arith, found.1, more, ne, held, get-insert m name v other), omega arith)
      ]
    ]
  ]

  merge_one-has :
      (m : HashMap String V) (name : String) (v : V)
      → (u : V) × (get (merge_one key m name v) name ≡ some u) × (key v ≤ key u)
  unfolding merge_one
  merge_one-has m name v = elim (Option-cases (get m name)) [
    | inl missing ↦ (
      v,
      ground (arith, missing, get-insert m name v name, string_eq.beq_iff name name),
      omega arith,
    )
    | inr found ↦ elim (Bool-cases (ltb (key found.0) (key v))) [
      | inr same ↦ (found.0, ground (arith, found.1, same), ground (arith, same))
      | inl more ↦ (
        v,
        ground (arith, found.1, more, get-insert m name v name, string_eq.beq_iff name name),
        omega arith,
      )
    ]
  ]

  merge_max-left : (m child : HashMap String V) → Rises key m (merge_max key m child)
  unfolding merge_max
  merge_max-left m [] = Rises-refl m
  merge_max-left m ((name, v) ∷ child) =
      Rises-trans m (merge_one key m name v) (merge_max key (merge_one key m name v) child)
        (merge_one-left m name v) (merge_max-left (merge_one key m name v) child)

  merge_max-right : (m child : HashMap String V) → Rises key child (merge_max key m child)
  unfolding merge_max get
  merge_max-right m [] name v h = absurd (ground (arith, h))
  merge_max-right m ((other, u) ∷ child) name v h = elim (Bool-cases (string_eq.beq other name)) [
    | inr ne ↦ merge_max-right (merge_one key m other u) child name v (ground (arith, ne, h))
    | inl eq ↦
        let held = merge_one-has m other u in
        let up = merge_max-left (merge_one key m other u) child other held.0 held.1 in
        (
          up.0,
          ground (arith, eq, up.1, string_eq.beq_iff other name),
          ground (arith, eq, h, up.2, held.2),
        )
  ]

Lowers-refl : (a : Option ℕ) → Lowers a a
Lowers-refl none = tt
Lowers-refl (some a) = omega arith

Lowers-trans : (a b c : Option ℕ) → Lowers a b → Lowers b c → Lowers a c
Lowers-trans none b c h k = tt
Lowers-trans (some a) none c h k = absurd h
Lowers-trans (some a) (some b) none h k = absurd k
Lowers-trans (some a) (some b) (some c) h k = omega (arith, h, k)

min_opt-left : (a b : Option ℕ) → Lowers a (min_opt a b)
unfolding min_opt
min_opt-left none b = tt
min_opt-left (some a) none = omega arith
min_opt-left (some a) (some b) = elim (Bool-cases (ltb b a)) [
  | inl less ↦ rw less (ground (arith, less))
  | inr not_less ↦ rw not_less (omega arith)
]

min_opt-right : (a b : Option ℕ) → Lowers b (min_opt a b)
unfolding min_opt
min_opt-right a none = tt
min_opt-right none (some b) = omega arith
min_opt-right (some a) (some b) = elim (Bool-cases (ltb b a)) [
  | inl less ↦ rw less (omega arith)
  | inr not_less ↦ rw not_less (ground (arith, not_less))
]

IsTighter-refl : (p : McpPolicy) → IsTighter p p
IsTighter-refl p = (
  (λ x h. h),
  (λ x h. h),
  Rises-refl priority p.tool_actions,
  Rises-refl risk_priority p.risk_overrides,
  Lowers-refl p.maximum_calls_per_minute,
  Lowers-refl p.maximum_calls_per_day,
  Lowers-refl p.maximum_server_concurrent_calls,
  Lowers-refl p.maximum_tool_concurrent_calls,
  Lowers-refl p.maximum_request_bytes,
  Lowers-refl p.maximum_response_bytes,
  Lowers-refl p.maximum_execution_ms,
)

IsTighter-trans : (p q r : McpPolicy) → IsTighter p q → IsTighter q r → IsTighter p r
IsTighter-trans p q r h k = (
  (λ x held. k.0 x (h.0 x held)),
  (λ x held. k.1 x (h.1 x held)),
  Rises-trans priority p.tool_actions q.tool_actions r.tool_actions h.2 k.2,
  Rises-trans risk_priority p.risk_overrides q.risk_overrides r.risk_overrides h.3 k.3,
  Lowers-trans p.maximum_calls_per_minute q.maximum_calls_per_minute r.maximum_calls_per_minute h.4
      k.4,
  Lowers-trans p.maximum_calls_per_day q.maximum_calls_per_day r.maximum_calls_per_day h.5 k.5,
  Lowers-trans p.maximum_server_concurrent_calls q.maximum_server_concurrent_calls
      r.maximum_server_concurrent_calls h.6 k.6,
  Lowers-trans p.maximum_tool_concurrent_calls q.maximum_tool_concurrent_calls
      r.maximum_tool_concurrent_calls h.7 k.7,
  Lowers-trans p.maximum_request_bytes q.maximum_request_bytes r.maximum_request_bytes h.8 k.8,
  Lowers-trans p.maximum_response_bytes q.maximum_response_bytes r.maximum_response_bytes h.9 k.9,
  Lowers-trans p.maximum_execution_ms q.maximum_execution_ms r.maximum_execution_ms h.10 k.10,
)

restrict_with-left : (p child : McpPolicy) → IsTighter p (restrict_with p child)
unfolding restrict_with
restrict_with-left p child = (
  (λ x h. ground (arith, h, union-contains p.denied_servers child.denied_servers x)),
  (λ x h. ground (arith, h, union-contains p.denied_tools child.denied_tools x)),
  merge_max-left priority p.tool_actions child.tool_actions,
  merge_max-left risk_priority p.risk_overrides child.risk_overrides,
  min_opt-left p.maximum_calls_per_minute child.maximum_calls_per_minute,
  min_opt-left p.maximum_calls_per_day child.maximum_calls_per_day,
  min_opt-left p.maximum_server_concurrent_calls child.maximum_server_concurrent_calls,
  min_opt-left p.maximum_tool_concurrent_calls child.maximum_tool_concurrent_calls,
  min_opt-left p.maximum_request_bytes child.maximum_request_bytes,
  min_opt-left p.maximum_response_bytes child.maximum_response_bytes,
  min_opt-left p.maximum_execution_ms child.maximum_execution_ms,
)

restrict_with-right : (p child : McpPolicy) → IsTighter child (restrict_with p child)
unfolding restrict_with
restrict_with-right p child = (
  (λ x h. ground (arith, h, union-contains p.denied_servers child.denied_servers x)),
  (λ x h. ground (arith, h, union-contains p.denied_tools child.denied_tools x)),
  merge_max-right priority p.tool_actions child.tool_actions,
  merge_max-right risk_priority p.risk_overrides child.risk_overrides,
  min_opt-right p.maximum_calls_per_minute child.maximum_calls_per_minute,
  min_opt-right p.maximum_calls_per_day child.maximum_calls_per_day,
  min_opt-right p.maximum_server_concurrent_calls child.maximum_server_concurrent_calls,
  min_opt-right p.maximum_tool_concurrent_calls child.maximum_tool_concurrent_calls,
  min_opt-right p.maximum_request_bytes child.maximum_request_bytes,
  min_opt-right p.maximum_response_bytes child.maximum_response_bytes,
  min_opt-right p.maximum_execution_ms child.maximum_execution_ms,
)

fold-IsTighter : (ps : List McpPolicy) (p : McpPolicy) → IsTighter p (foldl restrict_with p ps)
fold-IsTighter [] p = IsTighter-refl p
fold-IsTighter (q ∷ ps) p =
    IsTighter-trans p (restrict_with p q) (foldl restrict_with (restrict_with p q) ps)
      (restrict_with-left p q) (fold-IsTighter ps (restrict_with p q))

members-IsTighter :
    (ps : List McpPolicy) (p : McpPolicy) → All (λ q. IsTighter q (foldl restrict_with p ps)) ps
members-IsTighter [] p = tt
members-IsTighter (q ∷ ps) p = (
  IsTighter-trans q (restrict_with p q) (foldl restrict_with (restrict_with p q) ps)
      (restrict_with-right p q) (fold-IsTighter ps (restrict_with p q)),
  members-IsTighter ps (restrict_with p q),
)

-- The policy that a hierarchy resolves to is at least as strict as every one of its policies: it
-- has their denied servers and tools, for each tool that one of them has an action or a risk for
-- an action or a risk at least as high, and limits that are no higher.
pub resolve_mcp_hierarchy-IsTighter :
    (policies : List McpPolicy) → All (λ p. IsTighter p (resolve_mcp_hierarchy policies)) policies
unfolding resolve_mcp_hierarchy
resolve_mcp_hierarchy-IsTighter policies = members-IsTighter policies default_policy
