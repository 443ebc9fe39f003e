-- ===== src/Intake.antt =====
-- app/intake/classification.py. The search of a pattern in a text and the lower case of a text are
-- arguments; a confidence is a number of millionths.
pub mod Scores
pub mod Lead
mod Examples
use vendorops_ai.Base.{
  ℕ, zero, suc, ◌+◌, ◌*◌, ◌-◌, min, String, Bool, true, false, List, [], ◌∷◌, leb, ◌==◌, str_append,
  str_of_number, if◌then◌else◌,
}

pub data DocumentClass : Type 0 where
  invoice purchase_order contract tax_document vendor_master unknown : DocumentClass

pub record ClassificationResult : Type 0 where
  pub document_class : DocumentClass
  pub confidence : ℕ
  pub reasons : List String

-- _PATTERNS
abbrev pub patterns : List (DocumentClass × List String)
patterns =
    (invoice, "\\binvoice\\b" ∷ "\\binv[\\s_-]?(?:no|number)\\b" ∷ "tax invoice" ∷ [])
    ∷ (purchase_order, "\\bpurchase[\\s_-]?order\\b" ∷ "\\bpo[\\s_-]?(?:no|number)\\b" ∷ [])
    ∷ (contract, "\\bcontract\\b" ∷ "\\bagreement\\b" ∷ "terms and conditions" ∷ [])
    ∷ (tax_document, "\\btax\\b" ∷ "gst" ∷ "vat" ∷ "withholding" ∷ "tax certificate" ∷ [])
    ∷ (
      vendor_master,
      "vendor master" ∷ "supplier master" ∷ "vendor registration" ∷ "supplier registration" ∷ [],
    )
    ∷ []

-- An element of `scores`.
pub record Score : Type 0 where
  pub document_class : DocumentClass
  pub score : ℕ
  pub reasons : List String

unfoldable pub insert_score : Score → List Score → List Score
insert_score x [] = x ∷ []
insert_score x (y ∷ ys) =
    let rest = insert_score x ys in if leb y.score x.score then x ∷ y ∷ ys else y ∷ rest

-- scores.sort(key=..., reverse=True), which is stable.
unfoldable pub sort_scores : List Score → List Score
unfolding insert_score
sort_scores [] = []
sort_scores (x ∷ xs) = insert_score x (sort_scores xs)

unfoldable pub winner : Score → ClassificationResult
winner x = record {
  document_class = x.document_class;
  confidence = min 950000 (650000 + 100000 * (x.score - 1));
  reasons = x.reasons;
}

unfoldable pub ambiguous : Score → ClassificationResult
unfolding str_of_number
ambiguous x = record {
  document_class = unknown;
  confidence = 250000;
  reasons = "ambiguous_signals" ∷ str_append "top_score:" (str_of_number x.score) ∷ [];
}

-- From the sorted scores on.
unfoldable pub decide : List Score → ClassificationResult
unfolding winner ambiguous
decide [] = record { document_class = unknown; confidence = 0; reasons = "no_known_signals" ∷ [] }
decide (x ∷ []) = winner x
decide (x ∷ y ∷ rest) = if x.score == y.score then ambiguous x else winner x

module _ (search : String → String → Bool) (haystack : String) where
  -- The loop over the patterns of a class.
  unfoldable pub match_patterns : List String → ℕ × List String
  match_patterns [] = (0, [])
  match_patterns (p ∷ ps) =
      let (score, reasons) = match_patterns ps in
      if search p haystack then (suc score, str_append "matched:" p ∷ reasons) else (score, reasons)

  unfoldable pub entry : DocumentClass → List String → Score
  unfolding match_patterns
  entry c ps = record {
    document_class = c;
    score = (match_patterns ps).0;
    reasons = (match_patterns ps).1;
  }

  -- `if score:`
  unfoldable pub kept : Score → List Score → List Score
  kept e es = if e.score == 0 then es else e ∷ es

  unfoldable pub scores_of : List (DocumentClass × List String) → List Score
  unfolding kept entry
  scores_of [] = []
  scores_of ((c, ps) ∷ rest) = kept (entry c ps) (scores_of rest)

unfoldable pub classify_document :
    (String → String → Bool) → (String → String) → String → String → ClassificationResult
unfolding scores_of decide sort_scores
classify_document search lower filename text =
    decide
      (sort_scores (scores_of search (lower (str_append filename (str_append "\n" text))) patterns))
