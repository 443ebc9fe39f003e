-- ===== src/VendorCase.antt =====
-- app/workflows/vendor_case.py: the state machine of a vendor case.
mod Reachable
mod Examples
use vendorops_ai.Base.{
  String, Bool, true, false, ◌||◌, Option, none, some, List, [], ◌∷◌, if◌then◌else◌,
}

pub data VendorCaseState : Type 0 where
  received under_review ready_for_approval approved executing completed failed : VendorCaseState

-- _ALLOWED.
allowed : VendorCaseState → List VendorCaseState
allowed received = under_review ∷ []
allowed under_review = ready_for_approval ∷ failed ∷ []
allowed ready_for_approval = approved ∷ failed ∷ []
allowed approved = executing ∷ []
allowed executing = completed ∷ failed ∷ []
allowed completed = []
allowed failed = []

same_state : VendorCaseState → VendorCaseState → Bool
same_state received received = true
same_state under_review under_review = true
same_state ready_for_approval ready_for_approval = true
same_state approved approved = true
same_state executing executing = true
same_state completed completed = true
same_state failed failed = true
same_state _ _ = false

state_in : VendorCaseState → List VendorCaseState → Bool
unfolding same_state
state_in s [] = false
state_in s (t ∷ ts) = same_state s t || state_in s ts

pub record VendorCase : Type 0 where
  pub case_id : String
  pub state : VendorCaseState

-- The case that the constructor gives when no state is named.
abbrev pub new_case : String → VendorCase
new_case id = record { case_id = id; state = received }

-- `none` is InvalidTransition.
unfoldable pub transition : VendorCase → VendorCaseState → Option VendorCase
unfolding allowed state_in
transition c target =
    if state_in target (allowed c.state)
    then some (record { case_id = c.case_id; state = target })
    else none
