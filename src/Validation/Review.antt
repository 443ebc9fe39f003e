-- ===== src/Validation/Review.antt =====
-- The review decision of app/pipeline/document_pipeline.py on the findings of app/validation/rules.py.
use vendorops_ai.Base.{
  ℕ, suc, ◌≤◌, String, ◌≡◌, refl, ◌↔◌, inl, inr, Bool, true, false, ◌||◌, List, [], ◌∷◌, ◌++◌,
  arith, ltb, leb, All, Bool-cases, ◌==◌,
}
use vendorops_ai.Extraction.{ExtractedLineItem, SourceEvidence, ExtractedBusinessRecord}
use vendorops_ai.Validation.{
  ValidationSeverity, info, warning, error, ValidationFinding, Field, is_missing, is_present,
  required_of, missing_finding, missing_findings, validate_required_fields, validate_confidence,
  is_below_zero, validate_amounts, important_fields, evidence_count, unevidenced_finding,
  unevidenced, validate_source_evidence, line_item_finding, line_item_findings, validate_line_items,
  validate_extracted_record,
}
use vendorops_ai.Validation.Clean.{IsClean, no_findings_iff}

-- `finding.severity.value in {"warning", "error"}`
is_severe : ValidationSeverity → Bool
is_severe info = false
is_severe warning = true
is_severe error = true

any_severe : List ValidationFinding → Bool
unfolding is_severe
any_severe [] = false
any_severe (f ∷ fs) = is_severe f.severity || any_severe fs

unfoldable pub needs_review : ℕ → ExtractedBusinessRecord → List ValidationFinding → Bool
unfolding any_severe
needs_review threshold r findings =
    r.needs_review || (ltb r.confidence threshold || any_severe findings)

IsSevere : ValidationFinding → Type 0
unfolding is_severe
IsSevere f = is_severe f.severity ≡ true

IsSevere-append :
    (xs ys : List ValidationFinding) → All IsSevere xs → All IsSevere ys → All IsSevere (xs ++ ys)
IsSevere-append [] ys h k = k
IsSevere-append (x ∷ xs) ys h k = (h.0, IsSevere-append xs ys h.1 k)

missing-IsSevere : (fs : List (String × Field)) → All IsSevere (missing_findings fs)
unfolding missing_findings missing_finding IsSevere
missing-IsSevere [] = tt
missing-IsSevere ((name, value) ∷ fs) = elim (Bool-cases (is_missing value)) [
  | inl e ↦ rw e (refl, missing-IsSevere fs)
  | inr e ↦ rw e (missing-IsSevere fs)
]

unevidenced-IsSevere :
    (es : List SourceEvidence) (fs : List (String × Field)) → All IsSevere (unevidenced es fs)
unfolding unevidenced unevidenced_finding IsSevere
unevidenced-IsSevere es [] = tt
unevidenced-IsSevere es ((name, value) ∷ fs) = elim (Bool-cases (is_present value)) [
  | inr e ↦ rw e (unevidenced-IsSevere es fs)
  | inl e ↦ elim (Bool-cases (evidence_count name es == 0)) [
    | inl z ↦ rw (e, z) (refl, unevidenced-IsSevere es fs)
    | inr z ↦ rw (e, z) (unevidenced-IsSevere es fs)
  ]
]

items-IsSevere : (k : ℕ) (is : List ExtractedLineItem) → All IsSevere (line_item_findings k is)
unfolding line_item_findings line_item_finding IsSevere
items-IsSevere k [] = tt
items-IsSevere k (i ∷ is) = elim (Bool-cases (is_below_zero i.amount)) [
  | inl e ↦ rw e (refl, items-IsSevere (suc k) is)
  | inr e ↦ rw e (items-IsSevere (suc k) is)
]

confidence-IsSevere :
    (f : ℕ → String) (r : ExtractedBusinessRecord) → All IsSevere (validate_confidence f r)
unfolding validate_confidence IsSevere
confidence-IsSevere f r = elim (Bool-cases (leb 750000 r.confidence)) [
  | inl e ↦ rw e tt
  | inr e ↦ rw e (refl, tt)
]

amounts-IsSevere : (r : ExtractedBusinessRecord) → All IsSevere (validate_amounts r)
unfolding validate_amounts IsSevere
amounts-IsSevere r = elim (Bool-cases (is_below_zero r.total_amount)) [
  | inl e ↦ rw e (refl, tt)
  | inr e ↦ rw e tt
]

findings-IsSevere :
    (f : ℕ → String) (r : ExtractedBusinessRecord) → All IsSevere (validate_extracted_record f r)
unfolding validate_extracted_record validate_required_fields validate_source_evidence
    validate_line_items
findings-IsSevere f r = IsSevere-append _ _ (missing-IsSevere (required_of r.record_type r)) (
    IsSevere-append _ _ (confidence-IsSevere f r) (
      IsSevere-append _ _ (amounts-IsSevere r) (
        IsSevere-append _ _ (unevidenced-IsSevere r.source_evidence (important_fields r))
          (items-IsSevere 0 r.line_items))))

left_false : (a b : Bool) → a || b ≡ false → a ≡ false
left_false true b q = q
left_false false b q = refl

any_severe_iff :
    (fs : List ValidationFinding) → All IsSevere fs → (any_severe fs ≡ false) ↔ (fs ≡ [])
unfolding any_severe IsSevere
any_severe_iff [] h = ((λ _. refl), (λ _. refl))
any_severe_iff (x ∷ fs) h = (
  (λ q. absurd (cc (h.0, left_false (is_severe x.severity) (any_severe fs) q))),
  (λ q. absurd (cc q)),
)

or_false : (a b c : Bool) → (a || (b || c) ≡ false) ↔ ((a ≡ false) × (b ≡ false) × (c ≡ false))
or_false true b c = ((λ q. absurd (cc q)), (λ q. absurd (cc (q.0))))
or_false false true c = ((λ q. absurd (cc q)), (λ q. absurd (cc (q.1))))
or_false false false c = ((λ q. (refl, refl, q)), (λ q. q.2))

-- The pipeline lets a record pass without review exactly when the extractor did not ask for one, the
-- confidence reaches the configured threshold, and the record is clean; every finding, whatever its
-- severity, leads to a review.
pub no_review_iff :
    (f : ℕ → String) (threshold : ℕ) (r : ExtractedBusinessRecord)
    → (needs_review threshold r (validate_extracted_record f r) ≡ false)
      ↔ ((r.needs_review ≡ false) × (threshold ≤ r.confidence) × IsClean r)
unfolding needs_review
no_review_iff f threshold r =
    let fs = validate_extracted_record f r in
    let a = or_false r.needs_review (ltb r.confidence threshold) (any_severe fs) in
    let b = any_severe_iff fs (findings-IsSevere f r) in
    let c = no_findings_iff f r in
    (
      (λ h. let (x, y, z) = a.0 h in (x, ground (arith, y), c.0 (b.0 z))),
      (λ (x, y, z). a.1 (x, ground (arith, y), b.1 (c.1 z))),
    )
