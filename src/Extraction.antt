-- ===== src/Extraction.antt =====
-- app/extraction/schemas.py: what an extractor gives of a document. Amounts are read only for their
-- sign and their presence; they are whole numbers of the smallest unit. A confidence is a number of
-- millionths. Dates are texts.
use vendorops_ai.Base.{ℕ, String, Bool, true, false, Option, List}
use vendorops_ai.Db.{Details}

pub data ℤ : Type 0 where
  pos negsuc : ℕ → ℤ

-- `x < 0`
unfoldable pub is_negative : ℤ → Bool
is_negative (pos n) = false
is_negative (negsuc n) = true

pub data ExtractedRecordType : Type 0 where
  invoice contract email csv unknown : ExtractedRecordType

-- The value of the member.
abbrev pub type_value : ExtractedRecordType → String
type_value invoice = "invoice"
type_value contract = "contract"
type_value email = "email"
type_value csv = "csv"
type_value unknown = "unknown"

pub record SourceEvidence : Type 0 where
  pub field_name : String
  pub evidence_text : String
  pub page_number : Option ℤ
  pub confidence : ℕ

pub record ExtractedLineItem : Type 0 where
  pub description : String
  pub quantity : Option ℤ
  pub unit_price : Option ℤ
  pub amount : Option ℤ

pub record ExtractedBusinessRecord : Type 0 where
  pub record_type : ExtractedRecordType
  pub vendor_name : Option String
  pub document_id : Option String
  pub document_date : Option String
  pub due_date : Option String
  pub total_amount : Option ℤ
  pub currency : Option String
  pub summary : String
  pub key_terms : List String
  pub line_items : List ExtractedLineItem
  pub source_evidence : List SourceEvidence
  pub confidence : ℕ
  pub needs_review : Bool
  pub raw_fields : Details

pub record ExtractionResult : Type 0 where
  pub provider : String
  pub model : String
  pub record_ : ExtractedBusinessRecord
