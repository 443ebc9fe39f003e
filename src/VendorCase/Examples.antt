-- ===== src/VendorCase/Examples.antt =====
-- A vendor case that is completed, and the theorems at it.
use vendorops_ai.Base.{◌≤◌, ◌≡◌, refl, some, List, [], ◌∷◌, Has, length}
use vendorops_ai.VendorCase.{
  VendorCaseState, under_review, ready_for_approval, approved, executing, completed, VendorCase,
  new_case, transition,
}
use vendorops_ai.VendorCase.Reachable.{run, completed_needs_approval, run-length}

abbrev way : List VendorCaseState
way = under_review ∷ ready_for_approval ∷ approved ∷ executing ∷ completed ∷ []

abbrev done : VendorCase
done = record { case_id = "c1"; state = completed }

way_completes : run (new_case "c1") way ≡ some done
unfolding run transition
way_completes = refl

completed_needs_approval_example : Has approved way
completed_needs_approval_example = completed_needs_approval "c1" way done way_completes refl

run-length_example : length way ≤ 5
run-length_example = run-length "c1" way done way_completes
