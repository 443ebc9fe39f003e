-- ===== src/Pipeline/Errors.antt =====
-- What the stages of app/pipeline/document_pipeline.py raise, and what its `except` branch reads of it.
use vendorops_ai.Base.{ℕ, String, Bool, true, false, str_append, str_of_number}
use vendorops_ai.Worker.{Raised, other_error}

-- ParserError, ExtractionError, RetryExhaustedError with the class and the text of its cause,
-- ValueError with its class, and any other exception.
pub data StageError : Type 0 where
  parser_error extraction_error : String → StageError
  exhausted : ℕ → String → String → StageError
  value_error other : String → String → StageError

-- `type(exc).__name__`
unfoldable pub error_class : StageError → String
error_class (parser_error m) = "ParserError"
error_class (extraction_error m) = "ExtractionError"
error_class (exhausted n t m) = "RetryExhaustedError"
error_class (value_error t m) = t
error_class (other t m) = t

-- `str(exc)`
unfoldable pub error_text : StageError → String
unfolding str_of_number
error_text (parser_error m) = m
error_text (extraction_error m) = m
error_text (exhausted n t m) =
    str_append "Operation failed after " (str_append (str_of_number n) (str_append " attempts: " m))
error_text (value_error t m) = m
error_text (other t m) = m

-- `except (ParserError, ExtractionError, RetryExhaustedError, ValueError)`
unfoldable pub is_caught : StageError → Bool
is_caught (other t m) = false
is_caught (parser_error m) = true
is_caught (extraction_error m) = true
is_caught (exhausted n t m) = true
is_caught (value_error t m) = true

unfoldable pub stage_of : StageError → String
stage_of (parser_error m) = "parse"
stage_of _ = "extract"

-- `exc.cause if isinstance(exc, RetryExhaustedError) else exc`
unfoldable pub cause_type : StageError → String
unfolding error_class
cause_type (exhausted n t m) = t
cause_type e = error_class e

unfoldable pub cause_text : StageError → String
unfolding error_text
cause_text (exhausted n t m) = m
cause_text e = error_text e

unfoldable pub attempts_of : StageError → ℕ
attempts_of (exhausted n t m) = n
attempts_of _ = 1

-- An exception that leaves the pipeline as it is, as the worker sees it.
unfoldable pub uncaught : StageError → Raised
unfolding error_class error_text
uncaught e = other_error (error_class e) (error_text e)
