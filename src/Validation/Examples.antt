-- ===== src/Validation/Examples.antt =====
-- A clean contract, and runs of the validation on it and on a bad invoice.
use vendorops_ai.Base.{ℕ, String, ◌≡◌, ◌≤◌, refl, ◌↔◌, false, none, some, List, [], ◌∷◌}
use vendorops_ai.Extraction.{negsuc, ExtractedBusinessRecord}
use vendorops_ai.Extraction.ExtractedRecordType.{invoice, contract}
use vendorops_ai.Validation.{
  ValidationFinding, missing_finding, unevidenced_finding, line_item_finding,
  validate_extracted_record,
}
use vendorops_ai.Validation.Clean.{IsClean, no_findings_iff}
use vendorops_ai.Validation.Review.{needs_review, no_review_iff}

abbrev two_decimals : ℕ → String
two_decimals n = "0.50"

abbrev good : ExtractedBusinessRecord
good = record {
  record_type = contract;
  vendor_name = some "Acme";
  document_id = some "C-1";
  document_date = none;
  due_date = none;
  total_amount = none;
  currency = none;
  summary = "";
  key_terms = [];
  line_items = [];
  source_evidence =
      record {
        field_name = "vendor_name";
        evidence_text = "Acme";
        page_number = none;
        confidence = 900000;
      }
      ∷ record {
        field_name = "document_id";
        evidence_text = "C-1";
        page_number = none;
        confidence = 900000;
      }
      ∷ [];
  confidence = 800000;
  needs_review = false;
  raw_fields = [];
}

abbrev bad : ExtractedBusinessRecord
bad = record good {
  record_type = invoice;
  total_amount = some (negsuc 4);
  confidence = 500000;
  line_items =
      record { description = "x"; quantity = none; unit_price = none; amount = none }
      ∷ record { description = "y"; quantity = none; unit_price = none; amount = some (negsuc 0) }
      ∷ [];
}

names : List ValidationFinding → List String
names [] = []
names (f ∷ fs) = f.error_type ∷ names fs

bad_findings :
    names (validate_extracted_record two_decimals bad)
    ≡ "required_field_missing" ∷ "low_confidence" ∷ "invalid_amount" ∷ "source_evidence_missing"
      ∷ "invalid_line_item_amount" ∷ []
unfolding names validate_extracted_record missing_finding unevidenced_finding line_item_finding
bad_findings = refl

good_has_no_findings : validate_extracted_record two_decimals good ≡ []
unfolding validate_extracted_record
good_has_no_findings = refl

no_findings_iff_example : (validate_extracted_record two_decimals good ≡ []) ↔ IsClean good
no_findings_iff_example = no_findings_iff two_decimals good

no_review_iff_example :
    (needs_review 700000 good (validate_extracted_record two_decimals good) ≡ false)
    ↔ ((good.needs_review ≡ false) × (700000 ≤ good.confidence) × IsClean good)
no_review_iff_example = no_review_iff two_decimals 700000 good
