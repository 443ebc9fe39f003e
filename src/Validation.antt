-- ===== src/Validation.antt =====
-- app/validation/rules.py: the findings on an extracted record. The text of a confidence with two
-- decimals is Python's float formatting, an argument.
pub mod Clean
pub mod Review
mod Examples
use vendorops_ai.Base.{
  ℕ, suc, String, Bool, true, false, Option, none, some, List, [], ◌∷◌, ◌++◌, str_eq, str_append,
  leb, count_if, str_of_number, if◌then◌else◌, ◌==◌,
}
use vendorops_ai.Extraction.{
  ℤ, is_negative, ExtractedRecordType, ExtractedLineItem, SourceEvidence, ExtractedBusinessRecord,
}
use vendorops_ai.Extraction.ExtractedRecordType.{invoice, contract}

pub data ValidationSeverity : Type 0 where
  info warning error : ValidationSeverity

pub record ValidationFinding : Type 0 where
  pub field_name : Option String
  pub error_type : String
  pub message : String
  pub severity : ValidationSeverity

-- A value of the dictionary of required fields: what the test reads of it.
pub data Field : Type 0 where
  text_field : Option String → Field
  amount_field : Option ℤ → Field

-- `value is None or value == ""`
unfoldable pub is_missing : Field → Bool
is_missing (text_field none) = true
is_missing (text_field (some s)) = str_eq s ""
is_missing (amount_field none) = true
is_missing (amount_field (some a)) = false

-- `value is not None`
unfoldable pub is_present : Field → Bool
is_present (text_field none) = false
is_present (text_field (some s)) = true
is_present (amount_field none) = false
is_present (amount_field (some a)) = true

-- The dictionary of the fields that the type requires.
unfoldable pub required_of : ExtractedRecordType → ExtractedBusinessRecord → List (String × Field)
required_of invoice r =
    ("vendor_name", text_field r.vendor_name)
    ∷ ("document_id", text_field r.document_id)
    ∷ ("total_amount", amount_field r.total_amount)
    ∷ ("currency", text_field r.currency)
    ∷ []
required_of contract r =
    ("vendor_name", text_field r.vendor_name) ∷ ("document_id", text_field r.document_id) ∷ []
required_of _ r = ("summary", text_field (some r.summary)) ∷ []

unfoldable pub missing_finding : String → ValidationFinding
missing_finding name = record {
  field_name = some name;
  error_type = "required_field_missing";
  message = str_append "Required field '" (str_append name "' is missing.");
  severity = error;
}

unfoldable pub missing_findings : List (String × Field) → List ValidationFinding
unfolding is_missing
missing_findings [] = []
missing_findings ((name, value) ∷ fields) =
    let rest = missing_findings fields in
    if is_missing value then missing_finding name ∷ rest else rest

unfoldable pub validate_required_fields : ExtractedBusinessRecord → List ValidationFinding
unfolding missing_findings required_of
validate_required_fields r = missing_findings (required_of r.record_type r)

unfoldable pub validate_confidence : (ℕ → String) → ExtractedBusinessRecord → List ValidationFinding
validate_confidence two_decimals r =
    if leb 750000 r.confidence
    then []
    else record {
      field_name = some "confidence";
      error_type = "low_confidence";
      message =
          str_append "Extraction confidence "
            (str_append (two_decimals r.confidence) " is below the 0.75 review threshold.");
      severity = warning;
    }
      ∷ []

-- `amount is not None and amount < 0`
unfoldable pub is_below_zero : Option ℤ → Bool
unfolding is_negative
is_below_zero none = false
is_below_zero (some a) = is_negative a

unfoldable pub validate_amounts : ExtractedBusinessRecord → List ValidationFinding
unfolding is_below_zero
validate_amounts r =
    if is_below_zero r.total_amount
    then record {
      field_name = some "total_amount";
      error_type = "invalid_amount";
      message = "Total amount cannot be negative.";
      severity = error;
    }
      ∷ []
    else []

-- The fields that need evidence when they have a value.
unfoldable pub important_fields : ExtractedBusinessRecord → List (String × Field)
important_fields r =
    ("vendor_name", text_field r.vendor_name)
    ∷ ("document_id", text_field r.document_id)
    ∷ ("total_amount", amount_field r.total_amount)
    ∷ []

-- `evidence_counter[name]`
unfoldable pub evidence_count : String → List SourceEvidence → ℕ
evidence_count name evidence = count_if (λ e. str_eq e.field_name name) evidence

unfoldable pub unevidenced_finding : String → ValidationFinding
unevidenced_finding name = record {
  field_name = some name;
  error_type = "source_evidence_missing";
  message = str_append "Field '" (str_append name "' has a value but no source evidence.");
  severity = warning;
}

unfoldable pub unevidenced : List SourceEvidence → List (String × Field) → List ValidationFinding
unfolding is_present evidence_count
unevidenced evidence [] = []
unevidenced evidence ((name, value) ∷ fields) =
    let rest = unevidenced evidence fields in
    if is_present value
    then (if evidence_count name evidence == 0 then unevidenced_finding name ∷ rest else rest)
    else rest

unfoldable pub validate_source_evidence : ExtractedBusinessRecord → List ValidationFinding
unfolding unevidenced important_fields
validate_source_evidence r = unevidenced r.source_evidence (important_fields r)

unfoldable pub line_item_finding : ℕ → ValidationFinding
unfolding str_of_number
line_item_finding index = record {
  field_name = some (str_append "line_items[" (str_append (str_of_number index) "].amount"));
  error_type = "invalid_line_item_amount";
  message = "Line item amount cannot be negative.";
  severity = error;
}

-- The loop over the items, with the index of the first.
unfoldable pub line_item_findings : ℕ → List ExtractedLineItem → List ValidationFinding
unfolding is_below_zero
line_item_findings index [] = []
line_item_findings index (item ∷ items) =
    let rest = line_item_findings (suc index) items in
    if is_below_zero item.amount then line_item_finding index ∷ rest else rest

unfoldable pub validate_line_items : ExtractedBusinessRecord → List ValidationFinding
unfolding line_item_findings
validate_line_items r = line_item_findings 0 r.line_items

unfoldable pub validate_extracted_record :
    (ℕ → String) → ExtractedBusinessRecord → List ValidationFinding
unfolding validate_required_fields validate_confidence validate_amounts validate_source_evidence
    validate_line_items
validate_extracted_record two_decimals r =
    validate_required_fields r
    ++ (validate_confidence two_decimals r
        ++ (validate_amounts r ++ (validate_source_evidence r ++ validate_line_items r)))
