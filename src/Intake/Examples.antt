-- ===== src/Intake/Examples.antt =====
-- The word "invoice" and a pattern of another class.
use vendorops_ai.Base.{String, ◌≡◌, refl, ◌⊎◌, Bool, ◌||◌, [], ◌∷◌, str_eq}
use vendorops_ai.Intake.{invoice, ClassificationResult, patterns, classify_document}
use vendorops_ai.Intake.Lead.{NoSignal, Tied, Leads, classify_document-Meant}

abbrev search : String → String → Bool
search p s = str_eq p "\\binvoice\\b" || str_eq p "tax invoice" || str_eq p "vat"

abbrev same : String → String
same s = s

invoice_leads : classify_document search same "a.pdf" "private tax invoice" ≡ record {
  document_class = invoice;
  confidence = 750000;
  reasons = "matched:\\binvoice\\b" ∷ "matched:tax invoice" ∷ [];
}
unfolding classify_document
invoice_leads = refl

classify_document-Meant_example :
    let haystack : String = "a.pdf\nprivate tax invoice" in
    let r : ClassificationResult = classify_document search same "a.pdf" "private tax invoice" in
    (NoSignal search haystack patterns r
      ⊎ Tied search haystack patterns r
      ⊎ Leads search haystack patterns r)
classify_document-Meant_example = classify_document-Meant search same "a.pdf" "private tax invoice"
