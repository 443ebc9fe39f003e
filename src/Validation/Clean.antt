-- ===== src/Validation/Clean.antt =====
-- What the findings of app/validation/rules.py say of a record: none of them is made of a clean one.
use vendorops_ai.Base.{
  ℕ, suc, ◌≤◌, String, ◌≡◌, ◌≢◌, refl, ap, ◌∙◌, ◌↔◌, inl, inr, true, false, Option, none, some,
  List, [], ◌∷◌, ◌++◌, arith, leb, Has, All, str_eq, eq_iff, Bool-cases, ◌==◌,
}
use vendorops_ai.Extraction.{
  ℤ, pos, negsuc, is_negative, ExtractedRecordType, ExtractedLineItem, SourceEvidence,
  ExtractedBusinessRecord,
}
use vendorops_ai.Extraction.ExtractedRecordType.{invoice, contract, email, csv, unknown}
use vendorops_ai.Validation.{
  Field, text_field, amount_field, is_missing, is_present, required_of, missing_findings,
  validate_required_fields, validate_confidence, is_below_zero, validate_amounts, important_fields,
  evidence_count, unevidenced, validate_source_evidence, line_item_findings, validate_line_items,
  validate_extracted_record,
}

-- A text that is there and not empty.
unfoldable pub Given : Option String → Type 0
Given o = (s : String) × (o ≡ some s) × (s ≢ "")

-- The fields that a record of each type must have.
unfoldable pub Required : ExtractedRecordType → ExtractedBusinessRecord → Type 0
unfolding Given
Required invoice r =
    Given r.vendor_name × Given r.document_id × (r.total_amount ≢ none) × Given r.currency
Required contract r = Given r.vendor_name × Given r.document_id
Required email r = r.summary ≢ ""
Required csv r = r.summary ≢ ""
Required unknown r = r.summary ≢ ""

-- A value, if there is one, is not below zero.
unfoldable pub IsNonNegative : Option ℤ → Type 0
IsNonNegative o = (n : ℕ) → o ≢ some (negsuc n)

unfoldable pub Evidenced : List SourceEvidence → String → Type 0
Evidenced evidence name = (e : SourceEvidence) × Has e evidence × (e.field_name ≡ name)

-- What an extracted record should be: the description has no findings in it.
pub record IsClean (r : ExtractedBusinessRecord) : Type 0 where
  pub required : Required r.record_type r
  pub confident : 750000 ≤ r.confidence
  pub total : IsNonNegative r.total_amount
  pub vendor_evidence : r.vendor_name ≢ none → Evidenced r.source_evidence "vendor_name"
  pub document_evidence : r.document_id ≢ none → Evidenced r.source_evidence "document_id"
  pub total_evidence : r.total_amount ≢ none → Evidenced r.source_evidence "total_amount"
  pub items : All (λ (i : ExtractedLineItem). IsNonNegative i.amount) r.line_items

append-nil : {A : Type 0} (xs ys : List A) → (xs ++ ys ≡ []) ↔ ((xs ≡ []) × (ys ≡ []))
append-nil [] ys = ((λ h. (refl, h)), (λ h. h.1))
append-nil (x ∷ xs) ys = ((λ h. absurd (cc h)), (λ h. absurd (cc (h.0))))

nonempty_iff : (s : String) → (str_eq s "" ≡ false) ↔ (s ≢ "")
nonempty_iff s = (
  (λ h q. absurd (cc (h, (eq_iff s "").1 q))),
  (λ h. elim (Bool-cases (str_eq s "")) [ inl e ↦ absurd (h ((eq_iff s "").0 e)) | inr e ↦ e ]),
)

Given-iff : (o : Option String) → (is_missing (text_field o) ≡ false) ↔ Given o
unfolding is_missing Given
Given-iff none = ((λ h. absurd (cc h)), (λ (s, q, _). absurd (cc q)))
Given-iff (some s) =
    ((λ h. (s, refl, (nonempty_iff s).0 h)), (λ (t, q, n). (nonempty_iff s).1 (λ z. n (cc (q, z)))))

amount_iff : (o : Option ℤ) → (is_missing (amount_field o) ≡ false) ↔ (o ≢ none)
unfolding is_missing
amount_iff none = ((λ h. absurd (cc h)), (λ h. absurd (h refl)))
amount_iff (some a) = ((λ h q. cc q), (λ h. refl))

below_iff : (o : Option ℤ) → (is_below_zero o ≡ false) ↔ IsNonNegative o
unfolding is_below_zero is_negative IsNonNegative
below_iff none = ((λ h n q. cc q), (λ h. refl))
below_iff (some (pos m)) = ((λ h n q. cc q), (λ h. refl))
below_iff (some (negsuc m)) = ((λ h. absurd (cc h)), (λ h. absurd (h m refl)))

missing_cons :
    (name : String) (value : Field) (fields : List (String × Field))
    → (missing_findings ((name, value) ∷ fields) ≡ [])
      ↔ ((is_missing value ≡ false) × (missing_findings fields ≡ []))
unfolding missing_findings
missing_cons name value fields = elim (Bool-cases (is_missing value)) [
  | inl e ↦ rw e ((λ h. absurd (cc h)), (λ h. absurd (cc (h.0))))
  | inr e ↦ rw e ((λ h. (refl, h)), (λ h. h.1))
]

missing_nil : missing_findings [] ≡ []
unfolding missing_findings
missing_nil = refl

Evidenced-iff :
    (name : String) (es : List SourceEvidence)
    → ((evidence_count name es == 0) ≡ false) ↔ Evidenced es name
unfolding evidence_count Evidenced
Evidenced-iff name [] = ((λ h. absurd (cc h)), (λ (e, h, _). absurd h))
Evidenced-iff name (e ∷ es) = elim (Bool-cases (str_eq e.field_name name)) [
  | inl t ↦ ((λ h. (e, inl refl, (eq_iff e.field_name name).0 t)), (λ h. rw t (ground arith)))
  | inr f ↦ (
    (λ h. let (x, m, q) = (Evidenced-iff name es).0 (ground (arith, h, f)) in (x, inr m, q)),
    (λ (x, m, q). elim m [
      | inl z ↦
          absurd
            (cc (f, (eq_iff e.field_name name).1 (ap (λ (y : SourceEvidence). y.field_name) z ∙ q)))
      | inr m' ↦ ground (arith, f, (Evidenced-iff name es).1 (x, m', q))
    ]),
  )
]

unevidenced_cons :
    (es : List SourceEvidence) (name : String) (value : Field) (fields : List (String × Field))
    → (unevidenced es ((name, value) ∷ fields) ≡ [])
      ↔ ((is_present value ≡ true → Evidenced es name) × (unevidenced es fields ≡ []))
unfolding unevidenced
unevidenced_cons es name value fields = elim (Bool-cases (is_present value)) [
  | inr e ↦ rw e ((λ h. ((λ q. absurd (cc q)), h)), (λ h. h.1))
  | inl e ↦ elim (Bool-cases (evidence_count name es == 0)) [
    | inl z ↦
        rw (e, z)
          ((λ h. absurd (cc h)), (λ h. absurd (cc (z, (Evidenced-iff name es).1 (h.0 refl)))))
    | inr z ↦ rw (e, z) ((λ h. ((λ _. (Evidenced-iff name es).0 z), h)), (λ h. h.1))
  ]
]

unevidenced_nil : (es : List SourceEvidence) → unevidenced es [] ≡ []
unfolding unevidenced
unevidenced_nil es = refl

text_present : (o : Option String) → (is_present (text_field o) ≡ true) ↔ (o ≢ none)
unfolding is_present
text_present none = ((λ h. absurd (cc h)), (λ h. absurd (h refl)))
text_present (some s) = ((λ h q. cc q), (λ h. refl))

amount_present : (o : Option ℤ) → (is_present (amount_field o) ≡ true) ↔ (o ≢ none)
unfolding is_present
amount_present none = ((λ h. absurd (cc h)), (λ h. absurd (h refl)))
amount_present (some a) = ((λ h q. cc q), (λ h. refl))

items_iff :
    (k : ℕ) (is : List ExtractedLineItem)
    → (line_item_findings k is ≡ []) ↔ All (λ (i : ExtractedLineItem). IsNonNegative i.amount) is
unfolding line_item_findings
items_iff k [] = ((λ h. tt), (λ h. refl))
items_iff k (i ∷ is) = elim (Bool-cases (is_below_zero i.amount)) [
  | inl e ↦ rw e ((λ h. absurd (cc h)), (λ h. absurd (cc (e, (below_iff i.amount).1 (h.0)))))
  | inr e ↦ rw e (
    (λ h. ((below_iff i.amount).0 e, (items_iff (suc k) is).0 h)),
    (λ h. (items_iff (suc k) is).1 (h.1)),
  )
]

name_and_document :
    (v d : Option String) (fields : List (String × Field))
    → (missing_findings (("vendor_name", text_field v) ∷ ("document_id", text_field d) ∷ fields)
        ≡ [])
      ↔ (Given v × Given d × (missing_findings fields ≡ []))
name_and_document v d fields =
    let a = missing_cons "vendor_name" (text_field v) (("document_id", text_field d) ∷ fields) in
    let b = missing_cons "document_id" (text_field d) fields in
    (
      (λ h. let (x, y) = a.0 h in let (z, w) = b.0 y in ((Given-iff v).0 x, (Given-iff d).0 z, w)),
      (λ (x, z, w). a.1 ((Given-iff v).1 x, b.1 ((Given-iff d).1 z, w))),
    )

total_and_currency :
    (t : Option ℤ) (c : Option String)
    → (missing_findings (("total_amount", amount_field t) ∷ ("currency", text_field c) ∷ []) ≡ [])
      ↔ ((t ≢ none) × Given c)
total_and_currency t c =
    let a = missing_cons "total_amount" (amount_field t) (("currency", text_field c) ∷ []) in
    let b = missing_cons "currency" (text_field c) [] in
    (
      (λ h. let (x, y) = a.0 h in ((amount_iff t).0 x, (Given-iff c).0 (b.0 y).0)),
      (λ (x, y). a.1 ((amount_iff t).1 x, b.1 ((Given-iff c).1 y, missing_nil))),
    )

summary_iff :
    (s : String) → (missing_findings (("summary", text_field (some s)) ∷ []) ≡ []) ↔ (s ≢ "")
unfolding is_missing
summary_iff s =
    let a = missing_cons "summary" (text_field (some s)) [] in
    ((λ h. (nonempty_iff s).0 (a.0 h).0), (λ n. a.1 ((nonempty_iff s).1 n, missing_nil)))

required_of-nil :
    (t : ExtractedRecordType) (r : ExtractedBusinessRecord)
    → (missing_findings (required_of t r) ≡ []) ↔ Required t r
unfolding required_of Required
required_of-nil invoice r =
    let a = name_and_document r.vendor_name r.document_id _ in
    let b = total_and_currency r.total_amount r.currency in
    (
      (λ h. let (x, y, z) = a.0 h in let (t, c) = b.0 z in (x, y, t, c)),
      (λ (x, y, t, c). a.1 (x, y, b.1 (t, c))),
    )
required_of-nil contract r =
    let a = name_and_document r.vendor_name r.document_id [] in
    ((λ h. let (x, y, _) = a.0 h in (x, y)), (λ (x, y). a.1 (x, y, missing_nil)))
required_of-nil email r = summary_iff r.summary
required_of-nil csv r = summary_iff r.summary
required_of-nil unknown r = summary_iff r.summary

Required-iff :
    (r : ExtractedBusinessRecord) → (validate_required_fields r ≡ []) ↔ Required r.record_type r
unfolding validate_required_fields
Required-iff r = required_of-nil r.record_type r

confidence_iff :
    (f : ℕ → String) (r : ExtractedBusinessRecord)
    → (validate_confidence f r ≡ []) ↔ (750000 ≤ r.confidence)
unfolding validate_confidence
confidence_iff f r = elim (Bool-cases (leb 750000 r.confidence)) [
  | inl e ↦ rw e ((λ h. ground (arith, e)), (λ h. refl))
  | inr e ↦ rw e ((λ h. absurd (cc h)), (λ h. absurd (ground (arith, e, h))))
]

amounts_iff :
    (r : ExtractedBusinessRecord) → (validate_amounts r ≡ []) ↔ IsNonNegative r.total_amount
unfolding validate_amounts
amounts_iff r = elim (Bool-cases (is_below_zero r.total_amount)) [
  | inl e ↦ rw e ((λ h. absurd (cc h)), (λ h. absurd (cc (e, (below_iff r.total_amount).1 h))))
  | inr e ↦ rw e ((λ h. (below_iff r.total_amount).0 e), (λ h. refl))
]

Evidence : ExtractedBusinessRecord → Type 0
unfolding Evidenced
Evidence r =
    (r.vendor_name ≢ none → Evidenced r.source_evidence "vendor_name")
    × (r.document_id ≢ none → Evidenced r.source_evidence "document_id")
    × (r.total_amount ≢ none → Evidenced r.source_evidence "total_amount")

Evidence-iff : (r : ExtractedBusinessRecord) → (validate_source_evidence r ≡ []) ↔ Evidence r
unfolding validate_source_evidence important_fields Evidence
Evidence-iff r =
    let es = r.source_evidence in
    let c = unevidenced_cons es "total_amount" (amount_field r.total_amount) [] in
    let b =
      unevidenced_cons es "document_id" (text_field r.document_id)
        (("total_amount", amount_field r.total_amount) ∷ []) in
    let a = unevidenced_cons es "vendor_name" (text_field r.vendor_name) (
      ("document_id", text_field r.document_id)
      ∷ ("total_amount", amount_field r.total_amount)
      ∷ []) in
    (
      (λ h.
          let (x, y) = a.0 h in
          let (z, w) = b.0 y in
          let (u, _) = c.0 w in
          (
            (λ n. x ((text_present r.vendor_name).1 n)),
            (λ n. z ((text_present r.document_id).1 n)),
            (λ n. u ((amount_present r.total_amount).1 n)),
          )),
      (λ (x, z, u). a.1 (
        (λ n. x ((text_present r.vendor_name).0 n)),
        b.1 (
          (λ n. z ((text_present r.document_id).0 n)),
          c.1 ((λ n. u ((amount_present r.total_amount).0 n)), unevidenced_nil es),
        ),
      )),
    )

-- The validator finds nothing in a record exactly when it is clean: the fields that its type requires are there and
-- not empty, its confidence is at least 0.75, no amount of it is negative, and each of vendor name,
-- document id and total amount that it has is backed by evidence.
pub no_findings_iff :
    (f : ℕ → String) (r : ExtractedBusinessRecord)
    → (validate_extracted_record f r ≡ []) ↔ IsClean r
unfolding validate_extracted_record validate_line_items Evidence
no_findings_iff f r =
    let a = append-nil (validate_required_fields r) _ in
    let b = append-nil (validate_confidence f r) _ in
    let c = append-nil (validate_amounts r) _ in
    let d = append-nil (validate_source_evidence r) (line_item_findings 0 r.line_items) in
    (
      (λ h.
          let (x, y) = a.0 h in
          let (z, w) = b.0 y in
          let (u, v) = c.0 w in
          let (s, t) = d.0 v in
          let (e1, e2, e3) = (Evidence-iff r).0 s in
          record {
            required = (Required-iff r).0 x;
            confident = (confidence_iff f r).0 z;
            total = (amounts_iff r).0 u;
            vendor_evidence = e1;
            document_evidence = e2;
            total_evidence = e3;
            items = (items_iff 0 r.line_items).0 t;
          }),
      (λ k. a.1 (
        (Required-iff r).1 k.required,
        b.1 (
          (confidence_iff f r).1 k.confident,
          c.1 (
            (amounts_iff r).1 k.total,
            d.1 (
              (Evidence-iff r).1 (k.vendor_evidence, k.document_evidence, k.total_evidence),
              (items_iff 0 r.line_items).1 k.items,
            ),
          ),
        ),
      )),
    )
