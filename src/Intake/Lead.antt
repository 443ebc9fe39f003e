-- ===== src/Intake/Lead.antt =====
-- What app/intake/classification.py decides, in terms of the number of patterns that match.
use vendorops_ai.Base.{
  ℕ, ◌+◌, ◌*◌, ◌-◌, min, ◌≤◌, ◌<◌, String, ◌≡◌, ◌≢◌, refl, sym, ap, subst, ◌∙◌, ◌⊎◌, inl, inr, Bool,
  List, [], ◌∷◌, ◌==◌, All, All-map, Has, Bool-cases, str_append,
}
use vendorops_ai.Intake.{
  DocumentClass, unknown, ClassificationResult, Score, patterns, sort_scores, winner, ambiguous,
  decide, match_patterns, entry, scores_of, classify_document, kept,
}
use vendorops_ai.Intake.Scores.{
  Descends, sort-Descends, All-unsort, Has-unsort, Distinct, sort-Distinct, not_zero, zero_below,
  zero_least, equal, below_both, refl_le, none_of, positive,
}

abbrev Row : Type 0
Row = DocumentClass × List String

module _ (search : String → String → Bool) (haystack : String) where
  -- How many patterns of a class match.
  abbrev pub score_at : Row → ℕ
  score_at row = (match_patterns search haystack row.1).0

  abbrev pub entry_at : Row → Score
  entry_at row = entry search haystack row.0 row.1

  -- No pattern matches.
  abbrev pub NoSignal : List Row → ClassificationResult → Type 0
  NoSignal table r =
      All (λ (row : Row). score_at row ≡ 0) table
      × (r ≡ record { document_class = unknown; confidence = 0; reasons = "no_known_signals" ∷ [] })

  -- Two classes share the most matches.
  abbrev pub Tied : List Row → ClassificationResult → Type 0
  Tied table r =
      (a b : Row) × Has a table
      × Has b table
      × (b.0 ≢ a.0)
      × (score_at b ≡ score_at a)
      × (0 < score_at a)
      × All (λ (row : Row). score_at row ≤ score_at a) table
      × (r.document_class ≡ unknown)
      × (r.confidence ≡ 250000)

  -- One class has more matches than each other.
  abbrev pub Leads : List Row → ClassificationResult → Type 0
  Leads table r =
      (a : Row) × Has a table
      × (0 < score_at a)
      × All (λ (row : Row). row.0 ≢ a.0 → score_at row < score_at a) table
      × (r.document_class ≡ a.0)
      × (r.confidence ≡ min 950000 (650000 + 100000 * (score_at a - 1)))
      × (r.reasons ≡ (match_patterns search haystack a.1).1)

  scores-All :
      (P : Score → Type 0) (table : List Row)
      → All P (scores_of search haystack table)
      → All (λ (row : Row). 0 < score_at row → P (entry_at row)) table
  unfolding scores_of kept entry
  scores-All P [] h = tt
  scores-All P ((c, ps) ∷ rest) h = elim (Bool-cases (score_at (c, ps) == 0)) [
    | inl e ↦
        let h' = rw e at h in (λ p. absurd (not_zero (score_at (c, ps)) e p), scores-All P rest h')
    | inr e ↦ let h' = rw e at h in (λ p. h'.0, scores-All P rest h'.1)
  ]

  scores-Has :
      (z : Score) (table : List Row)
      → Has z (scores_of search haystack table)
      → (row : Row) × Has row table × (entry_at row ≡ z) × (0 < score_at row)
  unfolding scores_of kept entry
  scores-Has z [] h = absurd h
  scores-Has z ((c, ps) ∷ rest) h = elim (Bool-cases (score_at (c, ps) == 0)) [
    | inl e ↦ let h' = rw e at h in let (row, k, q, p) = scores-Has z rest h' in (row, inr k, q, p)
    | inr e ↦
        let h' : (entry_at (c, ps) ≡ z) ⊎ Has z (scores_of search haystack rest) = rw e at h in
        elim h' [
          | inl q ↦ ((c, ps), inl refl, q, positive (score_at (c, ps)) e)
          | inr k ↦ let (row, g, q, p) = scores-Has z rest k in (row, inr g, q, p)
        ]
  ]

  -- No class stands in two rows.
  abbrev OneRowEach : List Row → Type 0
  OneRowEach [] = Unit
  OneRowEach (row ∷ rest) = All (λ (other : Row). other.0 ≢ row.0) rest × OneRowEach rest

  scores-fresh :
      (c : DocumentClass) (table : List Row)
      → All (λ (other : Row). other.0 ≢ c) table
      → All (λ (y : Score). y.document_class ≢ c) (scores_of search haystack table)
  unfolding scores_of kept entry
  scores-fresh c [] h = tt
  scores-fresh c ((b, ps) ∷ rest) h = elim (Bool-cases (score_at (b, ps) == 0)) [
    | inl e ↦ rw e (scores-fresh c rest h.1)
    | inr e ↦ rw e (h.0, scores-fresh c rest h.1)
  ]

  scores-Distinct :
      (table : List Row) → OneRowEach table → Distinct (scores_of search haystack table)
  unfolding scores_of kept entry
  scores-Distinct [] d = tt
  scores-Distinct ((c, ps) ∷ rest) d = elim (Bool-cases (score_at (c, ps) == 0)) [
    | inl e ↦ rw e (scores-Distinct rest d.1)
    | inr e ↦ rw e (scores-fresh c rest d.0, scores-Distinct rest d.1)
  ]

  module _ (table : List Row) where
    abbrev sorted : List Score
    sorted = sort_scores (scores_of search haystack table)

    back :
        (P : Score → Type 0)
        → All P sorted
        → All (λ (row : Row). 0 < score_at row → P (entry_at row)) table
    back P h = scores-All P table (All-unsort P (scores_of search haystack table) h)

    origin :
        (z : Score)
        → Has z sorted
        → (row : Row) × Has row table × (entry_at row ≡ z) × (0 < score_at row)
    origin z h = scores-Has z table (Has-unsort z (scores_of search haystack table) h)

    leads :
        (x : Score)
        → Has x sorted
        → All (λ (y : Score). y.document_class ≢ x.document_class → y.score < x.score) sorted
        → Leads table (winner x)
    unfolding winner entry
    leads x h below =
        let (a, k, q, p) = origin x h in
        let rows =
          back (λ (y : Score). y.document_class ≢ x.document_class → y.score < x.score) below in
        (
          a,
          k,
          p,
          All-map
              (λ (row : Row). 0 < score_at row → row.0 ≢ x.document_class → score_at row < x.score)
              (λ (row : Row). row.0 ≢ a.0 → score_at row < score_at a)
              (λ row f n. elim (Bool-cases (score_at row == 0)) [
                | inl e ↦ zero_below (score_at row) (score_at a) e p
                | inr e ↦
                    subst (λ m. score_at row < m) (ap (λ (s : Score). s.score) (sym q))
                      (f (positive (score_at row) e)
                        (λ same. n (same ∙ ap (λ (s : Score). s.document_class) (sym q))))
              ])
              table rows,
          ap (λ (s : Score). s.document_class) (sym q),
          ap (λ (s : Score). min 950000 (650000 + 100000 * (s.score - 1))) (sym q),
          ap (λ (s : Score). s.reasons) (sym q),
        )

    tied :
        (x y : Score) (r : ClassificationResult)
        → Has x sorted
        → Has y sorted
        → y.document_class ≢ x.document_class
        → y.score ≡ x.score
        → All (λ (z : Score). z.score ≤ x.score) sorted
        → r.document_class ≡ unknown
        → r.confidence ≡ 250000
        → Tied table r
    unfolding entry
    tied x y r h g differ same below u c =
        let (a, k, q, p) = origin x h in
        let (b, l, q', p') = origin y g in
        (
          a,
          b,
          k,
          l,
          (λ e. differ (
              ap (λ (s : Score). s.document_class) (sym q')
              ∙ e
              ∙ ap (λ (s : Score). s.document_class) q)),
          ap (λ (s : Score). s.score) q' ∙ same ∙ ap (λ (s : Score). s.score) (sym q),
          p,
          All-map (λ (row : Row). 0 < score_at row → score_at row ≤ x.score)
              (λ (row : Row). score_at row ≤ score_at a)
              (λ row f. elim (Bool-cases (score_at row == 0)) [
                | inl e ↦ zero_least (score_at row) (score_at a) e
                | inr e ↦
                    subst (λ m. score_at row ≤ m) (ap (λ (s : Score). s.score) (sym q))
                      (f (positive (score_at row) e))
              ])
              table (back (λ (z : Score). z.score ≤ x.score) below),
          u,
          c,
        )

    verdict :
        (ys : List Score)
        → sorted ≡ ys
        → Descends ys
        → Distinct ys
        → (NoSignal table (decide ys) ⊎ Tied table (decide ys) ⊎ Leads table (decide ys))
    unfolding decide ambiguous
    verdict [] q d u = inl (
      All-map (λ (row : Row). 0 < score_at row → ⊥) (λ (row : Row). score_at row ≡ 0)
          (λ row f. elim (Bool-cases (score_at row == 0)) [
            | inl e ↦ none_of (score_at row) e
            | inr e ↦ absurd (f (positive (score_at row) e))
          ])
          table (back (λ z. ⊥) (subst (All (λ z. ⊥)) (sym q) tt)),
      refl,
    )
    verdict (x ∷ []) q d u = inr (
        inr (
          leads x (subst (Has x) (sym q) (inl refl)) (
            subst (All (λ (y : Score). y.document_class ≢ x.document_class → y.score < x.score))
              (sym q) ((λ n. absurd (n refl)), tt))))
    verdict (x ∷ y ∷ zs) q d u = elim (Bool-cases (x.score == y.score)) [
      | inl e ↦ rw e (
          inr (
            inl (
              tied x y (ambiguous x) (subst (Has x) (sym q) (inl refl))
                (subst (Has y) (sym q) (inr (inl refl))) u.0.0 (equal x.score y.score e)
                (subst (All (λ (z : Score). z.score ≤ x.score)) (sym q) (refl_le x.score, d.0)) refl
                refl)))
      | inr e ↦ rw e (
          inr (
            inr (
              leads x (subst (Has x) (sym q) (inl refl)) (
                subst (All (λ (y : Score). y.document_class ≢ x.document_class → y.score < x.score))
                  (sym q)
                  (
                    (λ n. absurd (n refl)),
                    (
                      (λ n. below_both y.score y.score x.score (refl_le y.score) d.0.0 e),
                      All-map (λ (z : Score). z.score ≤ y.score)
                          (λ (z : Score). z.document_class ≢ x.document_class → z.score < x.score)
                          (λ z h n. below_both z.score y.score x.score h d.0.0 e) zs d.1.0,
                    ),
                  )))))
    ]

one_row_each :
    (search : String → String → Bool) (haystack : String) → OneRowEach search haystack patterns
one_row_each search haystack = (
  ((λ e. cc e), ((λ e. cc e), ((λ e. cc e), ((λ e. cc e), tt)))),
  (
    ((λ e. cc e), ((λ e. cc e), ((λ e. cc e), tt))),
    (((λ e. cc e), ((λ e. cc e), tt)), (((λ e. cc e), tt), (tt, tt))),
  ),
)

-- The classification has three ends. Either no pattern of any class matches: unknown, with confidence 0.
-- Or two classes share the most matches: unknown, with confidence 0.25. Or one class has more matches
-- than each other: that class, with the patterns that match as reasons and a confidence of 0.65 and 0.1
-- for each match after the first, but at most 0.95.
pub classify_document-Meant :
    (search : String → String → Bool) (lower : String → String) (filename text : String)
    → let haystack : String = lower (str_append filename (str_append "\n" text)) in
      let r : ClassificationResult = classify_document search lower filename text in
      (NoSignal search haystack patterns r
        ⊎ Tied search haystack patterns r
        ⊎ Leads search haystack patterns r)
unfolding classify_document
classify_document-Meant search lower filename text =
    let haystack : String = lower (str_append filename (str_append "\n" text)) in
    let scores : List Score = scores_of search haystack patterns in
    verdict search haystack patterns (sort_scores scores) refl (sort-Descends scores) (
      sort-Distinct scores
        (scores-Distinct search haystack patterns (one_row_each search haystack)))
