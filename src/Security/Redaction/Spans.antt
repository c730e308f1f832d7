-- ===== src/Security/Redaction/Spans.antt =====
-- The spans that `redact_text` replaces (crates/gateway-security/src/redaction.rs).
use mathlib.Core.List.{foldl, filter_map}
use tuenel.Prelude.{
  ℕ, ◌≤◌, ◌<◌, ◌≡◌, refl, ◌∙◌, Bool, ◌&&◌, ◌||◌, inl, inr, List, [], ◌∷◌, ltb, leb, Bool-cases,
  arith, All, any, filter,
}
use tuenel.Types.Security.{SanitizedEvidence}
use tuenel.Security.Redaction.{
  Span, span_of, valid_spans, span_leb, insert_span, sort_spans, push_span, merge_spans,
}

-- The byte at `i` is in the span.
abbrev pub covers : ℕ → Span → Bool
covers i s = leb s.0 i && ltb i s.1

-- Spans by their starts.
abbrev IsOrdered : List Span → Type 0
IsOrdered [] = Unit {0}
IsOrdered (s ∷ ss) = All (λ t. s.0 ≤ t.0) ss × IsOrdered ss

-- Spans that hold a byte, each before the next, with a gap between them.
abbrev pub IsApart : List Span → Type 0
IsApart [] = Unit {0}
IsApart (s ∷ ss) = (s.0 < s.1) × All (λ t. s.1 < t.0) ss × IsApart ss

any-insert_span :
    (p : Span → Bool) (s : Span) (ss : List Span) → any p (insert_span s ss) ≡ any p (s ∷ ss)
unfolding insert_span
any-insert_span p s [] = refl
any-insert_span p s (t ∷ ts) = ground (arith, any-insert_span p s ts)

any-sort_spans : (p : Span → Bool) (ss : List Span) → any p (sort_spans ss) ≡ any p ss
unfolding sort_spans
any-sort_spans p [] = refl
any-sort_spans p (s ∷ ss) = ground (arith, any-insert_span p s (sort_spans ss), any-sort_spans p ss)

All-insert_span :
    (P : Span → Type 0) (s : Span) (ss : List Span) → P s → All P ss → All P (insert_span s ss)
unfolding insert_span
All-insert_span P s [] h hs = (h, tt)
All-insert_span P s (t ∷ ts) h hs = elim (Bool-cases (span_leb s t)) [
  | inl e ↦ rw e (h, hs)
  | inr e ↦ rw e (hs.0, All-insert_span P s ts h hs.1)
]

All-sort_spans : (P : Span → Type 0) (ss : List Span) → All P ss → All P (sort_spans ss)
unfolding sort_spans
All-sort_spans P [] hs = tt
All-sort_spans P (s ∷ ss) hs = All-insert_span P s (sort_spans ss) hs.0 (All-sort_spans P ss hs.1)

All-le : (n m : ℕ) (ss : List Span) → n ≤ m → All (λ t. m ≤ t.0) ss → All (λ t. n ≤ t.0) ss
All-le n m [] h hs = tt
All-le n m (s ∷ ss) h hs = (omega arith, All-le n m ss h hs.1)

insert_span-IsOrdered : (s : Span) (ss : List Span) → IsOrdered ss → IsOrdered (insert_span s ss)
unfolding insert_span
insert_span-IsOrdered s [] h = (tt, tt)
insert_span-IsOrdered s (t ∷ ts) h = elim (Bool-cases (span_leb s t)) [
  | inl e ↦ rw e ((ground arith, All-le s.0 t.0 ts (ground arith) h.0), h)
  | inr e ↦
      rw e
        (All-insert_span (λ u. t.0 ≤ u.0) s ts (ground arith) h.0, insert_span-IsOrdered s ts h.1)
]

sort_spans-IsOrdered : (ss : List Span) → IsOrdered (sort_spans ss)
unfolding sort_spans
sort_spans-IsOrdered [] = tt
sort_spans-IsOrdered (s ∷ ss) = insert_span-IsOrdered s (sort_spans ss) (sort_spans-IsOrdered ss)

any-push_span :
    (i : ℕ) (ms : List Span) (s : Span)
    → s.0 < s.1
    → IsApart ms
    → All (λ m. m.0 ≤ s.0) ms
    → any (covers i) (push_span ms s) ≡ (any (covers i) ms || covers i s)
unfolding push_span
any-push_span i [] s h ha hs = ground arith
any-push_span i (m ∷ []) s h ha hs = ground arith
any-push_span i (m ∷ n ∷ ms) s h ha hs = ground (arith, any-push_span i (n ∷ ms) s h ha.2 hs.1)

-- The starts after a push are those before, and perhaps the new one.
All-push_span :
    (P : ℕ → Type 0) (ms : List Span) (s : Span)
    → P s.0
    → All (λ m. P m.0) ms
    → All (λ m. P m.0) (push_span ms s)
unfolding push_span
All-push_span P [] s h hs = (h, tt)
All-push_span P (m ∷ []) s h hs = elim (Bool-cases (leb s.0 m.1)) [
  | inl e ↦ rw e hs
  | inr e ↦ rw e (hs.0, (h, tt))
]
All-push_span P (m ∷ n ∷ ms) s h hs = (hs.0, All-push_span P (n ∷ ms) s h hs.1)

push_span-IsApart :
    (ms : List Span) (s : Span)
    → s.0 < s.1
    → IsApart ms
    → All (λ m. m.0 ≤ s.0) ms
    → IsApart (push_span ms s)
unfolding push_span
push_span-IsApart [] s h ha hs = (h, tt, tt)
push_span-IsApart (m ∷ []) s h ha hs = elim (Bool-cases (leb s.0 m.1)) [
  | inl e ↦ rw e (omega arith, tt, tt)
  | inr e ↦ rw e (ha.0, (ground arith, tt), (h, tt, tt))
]
push_span-IsApart (m ∷ n ∷ ms) s h ha hs = (
  ha.0,
  All-push_span (λ k. m.1 < k) (n ∷ ms) s (ground arith) ha.1,
  push_span-IsApart (n ∷ ms) s h ha.2 hs.1,
)

-- The spans of a fold on from those merged before.
foldl-push_span :
    (ms ss : List Span)
    → All (λ s. s.0 < s.1) ss
    → IsOrdered ss
    → IsApart ms
    → All (λ s. All (λ m. m.0 ≤ s.0) ms) ss
    → IsApart (foldl push_span ms ss)
      × ((i : ℕ)
          → any (covers i) (foldl push_span ms ss) ≡ (any (covers i) ms || any (covers i) ss))
foldl-push_span ms [] hs ho ha hb = (ha, λ i. ground arith)
foldl-push_span ms (s ∷ ss) hs ho ha hb =
    let ih =
      foldl-push_span (push_span ms s) ss hs.1 ho.1 (push_span-IsApart ms s hs.0 ha hb.0)
        (pushed ss ho.0 hb.1) in
    (ih.0, λ i. ground (arith, ih.1 i, any-push_span i ms s hs.0 ha hb.0))
  where
    pushed :
        (ts : List Span)
        → All (λ t. s.0 ≤ t.0) ts
        → All (λ t. All (λ m. m.0 ≤ t.0) ms) ts
        → All (λ t. All (λ m. m.0 ≤ t.0) (push_span ms s)) ts
    pushed [] h k = tt
    pushed (t ∷ ts) h k = (All-push_span (λ n. n ≤ t.0) ms s h.0 k.0, pushed ts h.1 k.1)

All-none : (ss : List Span) → All (λ (s : Span). All (λ (m : Span). m.0 ≤ s.0) []) ss
All-none [] = tt
All-none (s ∷ ss) = (tt, All-none ss)

All-filter_valid :
    (n : ℕ) (ss : List Span) → All (λ s. s.0 < s.1) (filter (λ s. ltb s.0 s.1 && leb s.1 n) ss)
All-filter_valid n [] = tt
All-filter_valid n (s ∷ ss) = elim (Bool-cases (ltb s.0 s.1 && leb s.1 n)) [
  | inl e ↦ rw e (ground arith, All-filter_valid n ss)
  | inr e ↦ rw e (All-filter_valid n ss)
]

-- The spans that a text's redaction replaces hold a byte each, stand in order with gaps between
-- them, and together cover exactly the bytes that some piece of evidence covers whose span is not
-- empty and ends in the text.
pub merge_spans-IsApart :
    (n : ℕ) (evidence : List SanitizedEvidence)
    → IsApart (merge_spans (sort_spans (valid_spans n evidence)))
      × ((i : ℕ)
          → any (covers i) (merge_spans (sort_spans (valid_spans n evidence)))
            ≡ any (covers i) (valid_spans n evidence))
unfolding merge_spans valid_spans
merge_spans-IsApart n evidence =
    let valid = valid_spans n evidence in
    let merged =
      foldl-push_span [] (sort_spans valid)
        (All-sort_spans (λ s. s.0 < s.1) valid (All-filter_valid n (filter_map span_of evidence)))
        (sort_spans-IsOrdered valid) tt (All-none (sort_spans valid)) in
    (merged.0, λ i. merged.1 i ∙ any-sort_spans (covers i) valid)
