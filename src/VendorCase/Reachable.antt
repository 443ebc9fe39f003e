-- ===== src/VendorCase/Reachable.antt =====
-- Which states a vendor case reaches, and through which states.
use vendorops_ai.Base.{
  ℕ, suc, ◌+◌, ◌≤◌, String, ◌≡◌, ◌⊎◌, inl, inr, refl, ap, Bool, true, false, Option, none, some,
  List, [], ◌∷◌, arith, Has, length, Option-cases,
}
use vendorops_ai.VendorCase.{
  VendorCaseState, received, under_review, ready_for_approval, approved, executing, completed,
  failed, VendorCase, new_case, transition,
}

-- A sequence of requested transitions, of which none is refused: the states that it went through.
unfoldable pub run : VendorCase → List VendorCaseState → Option VendorCase
run c [] = some c
run c (t ∷ ts) = elim (transition c t) [ none ↦ none | some c' ↦ run c' ts ]

-- How far a state is from the first state on the way to `completed`.
abbrev pub level : VendorCaseState → ℕ
level received = 0
level under_review = 1
level ready_for_approval = 2
level approved = 3
level executing = 4
level completed = 5
level failed = 5

transition-level :
    (c c' : VendorCase) (t : VendorCaseState)
    → transition c t ≡ some c'
    → (c'.case_id ≡ c.case_id) × (c'.state ≡ t) × (suc (level c.state) ≤ level t)
unfolding transition
transition-level c c' t h = ground arith

-- The states from the approval on.
abbrev pub past_approval : VendorCaseState → Bool
past_approval approved = true
past_approval executing = true
past_approval completed = true
past_approval _ = false

transition-enters :
    (c c' : VendorCase) (t : VendorCaseState)
    → transition c t ≡ some c'
    → past_approval c.state ≡ false
    → (past_approval c'.state ≡ false) ⊎ (t ≡ approved)
unfolding transition
transition-enters c c' t h u = ground arith

run-passes :
    (c c' : VendorCase) (ts : List VendorCaseState)
    → run c ts ≡ some c'
    → past_approval c.state ≡ false
    → past_approval c'.state ≡ true
    → Has approved ts
unfolding run
run-passes c c' [] h u m = absurd (ground arith)
run-passes c c' (t ∷ ts) h u m = elim (Option-cases (transition c t)) [
  | inl e ↦ absurd (ground arith)
  | inr (d, e) ↦ elim (transition-enters c d t e u) [
    | inl v ↦ inr (run-passes d c' ts (rw (e, run) at h) v m)
    | inr a ↦ inl a
  ]
]

-- From a new case, every accepted sequence of transitions that ends in `approved`, `executing` or
-- `completed` contains a transition to `approved`.
pub completed_needs_approval :
    (id : String) (ts : List VendorCaseState) (c : VendorCase)
    → run (new_case id) ts ≡ some c
    → past_approval c.state ≡ true
    → Has approved ts
completed_needs_approval id ts c h e = run-passes (new_case id) c ts h refl e

run-level :
    (c c' : VendorCase) (ts : List VendorCaseState)
    → run c ts ≡ some c'
    → level c.state + length ts ≤ level c'.state
unfolding run
run-level c c' [] h = ground arith
run-level c c' (t ∷ ts) h = elim (Option-cases (transition c t)) [
  | inl e ↦ absurd (ground arith)
  | inr (d, e) ↦
      let (same, at, up) = transition-level c d t e in
      omega (arith, run-level d c' ts (rw (e, run) at h), ap level at)
]

level-le : (s : VendorCaseState) → level s ≤ 5
level-le s = ground arith

-- No accepted sequence from a new case is longer than five transitions, so every case comes to rest.
pub run-length :
    (id : String) (ts : List VendorCaseState) (c : VendorCase)
    → run (new_case id) ts ≡ some c
    → length ts ≤ 5
run-length id ts c h = omega (arith, run-level (new_case id) c ts h, level-le c.state)
