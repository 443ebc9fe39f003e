-- ===== src/Ingestion/Uploads.antt =====
-- Which uploads app/ingestion/storage.py reads to their end.
use vendorops_ai.Base.{
  ℕ, ◌+◌, ◌≤◌, String, ◌≡◌, refl, sym, ap, ◌∙◌, true, false, List, [], ◌∷◌, ◌++◌, length,
  length-append, ltb, str_append, inl, inr, arith, Bool-cases, if◌then◌else◌,
}
use vendorops_ai.Retry.{returned, raised}
use vendorops_ai.Storage.{Bytes}
use vendorops_ai.Ingestion.{read_from}

-- What the reads of an upload return before the first empty one.
abbrev pub content_of : List Bytes → Bytes
content_of [] = []
content_of ([] ∷ chunks) = []
content_of ((b ∷ chunk) ∷ chunks) = (b ∷ chunk) ++ content_of chunks

within : (m k : ℕ) → m ≤ k → ltb k (m + 0) ≡ false
within m k h = ground arith

still_within : (m k : ℕ) → ltb k m ≡ false → m ≤ k
still_within m k h = ground arith

longer_over : (m b k : ℕ) → ltb k m ≡ true → ltb k (m + b) ≡ true
longer_over m b k h = ground arith

sum_assoc : (n a b : ℕ) → n + a + b ≡ n + (a + b)
sum_assoc n a b = omega arith

module _ (megabytes : ℕ → String) (max_size_bytes : ℕ) where
  abbrev pub too_large : String
  too_large =
      str_append "Uploaded file exceeds the " (str_append (megabytes max_size_bytes) " MB limit.")

  -- The read gives the whole content, or the error exactly if there is more than the limit.
  pub read_from-content :
      (total_size : ℕ) (chunks : List Bytes)
      → total_size ≤ max_size_bytes
      → read_from megabytes max_size_bytes total_size chunks ≡ (
          if ltb max_size_bytes (total_size + length (content_of chunks))
          then raised too_large
          else returned (content_of chunks))
  unfolding read_from
  read_from-content total_size [] h = rw (within total_size max_size_bytes h) refl
  read_from-content total_size ([] ∷ chunks) h = rw (within total_size max_size_bytes h) refl
  read_from-content total_size ((b ∷ chunk) ∷ chunks) h =
      let total = total_size + length (b ∷ chunk) in
      let rest = content_of chunks in
      let limit = λ (n : ℕ). ltb max_size_bytes n in
      let whole : total_size + length ((b ∷ chunk) ++ rest) ≡ total + length rest =
        ap (λ n. total_size + n) (length-append (b ∷ chunk) rest)
        ∙ sym (sum_assoc total_size (length (b ∷ chunk)) (length rest)) in
      elim (Bool-cases (ltb max_size_bytes total)) [
        | inl e ↦ rw (e, ap limit whole ∙ longer_over total (length rest) max_size_bytes e) refl
        | inr e ↦
            let ih = read_from-content total chunks (still_within total max_size_bytes e) in
            elim (Bool-cases (ltb max_size_bytes (total + length rest))) [
              | inl u ↦ rw (e, ih, u, ap limit whole ∙ u) refl
              | inr u ↦ rw (e, ih, u, ap limit whole ∙ u) refl
            ]
      ]
