-- ===== src/Base/Lists.antt =====
-- Lists over the native numbers: counting, searching and updating rows by a test.
use Prim.Native.Nat.{ℕ, suc, ◌+◌}
use mathlib.Core.Path.{◌≡◌, refl, sym, ap, ◌∙◌, subst}
use mathlib.Core.Logic.{◌⊎◌, ◌↔◌, inl, inr}
use mathlib.Core.Bool.{Bool, true, false}
use mathlib.Core.Option.{Option, none, some}
use mathlib.Core.List.{List, [], ◌∷◌, ◌++◌}
use native.Mathlib.Omega.{arith}
use vendorops_ai.Base.Tests.{if◌then◌else◌}

module _ {ℓ} {A : Type ℓ} where
  abbrev pub length : List A → ℕ
  length [] = 0
  length (x ∷ xs) = suc (length xs)

  pub length-append : (xs ys : List A) → length (xs ++ ys) ≡ length xs + length ys
  length-append [] ys = omega arith
  length-append (x ∷ xs) ys = omega (arith, length-append xs ys)

  -- The rows that pass a test.
  abbrev pub keep_if : (A → Bool) → List A → List A
  keep_if p [] = []
  keep_if p (x ∷ xs) = let rest = keep_if p xs in if p x then x ∷ rest else rest

  -- How many rows pass a test.
  abbrev pub count_if : (A → Bool) → List A → ℕ
  count_if p [] = 0
  count_if p (x ∷ xs) = (if p x then 1 else 0) + count_if p xs

  -- `UPDATE ... WHERE`: the rows that pass are rewritten, the others stay.
  abbrev pub update_if : (A → Bool) → (A → A) → List A → List A
  update_if p f [] = []
  update_if p f (x ∷ xs) = (if p x then f x else x) ∷ update_if p f xs

  -- The first row that passes.
  abbrev pub find_if : (A → Bool) → List A → Option A
  find_if p [] = none
  find_if p (x ∷ xs) = if p x then some x else find_if p xs

-- Membership by recursion.
abbrev pub Has : {A : Type 0} → A → List A → Type 0
Has a [] = ⊥
Has a (x ∷ xs) = (x ≡ a) ⊎ Has a xs

module _ {ℓ κ} {A : Type ℓ} where
  abbrev pub All : (A → Type κ) → List A → Type κ
  All P [] = Unit
  All P (x ∷ xs) = P x × All P xs

  pub All-map : (P Q : A → Type κ) → ((x : A) → P x → Q x) → (xs : List A) → All P xs → All Q xs
  All-map P Q f [] h = tt
  All-map P Q f (x ∷ xs) h = (f x h.0, All-map P Q f xs h.1)

-- A property of all rows after an update, from the rows that pass and the rows that do not.
module _ {ℓ κ} {A : Type ℓ} where
  pub All-update_if :
      (P Q : A → Type κ) (p : A → Bool) (f : A → A)
      → ((x : A) → p x ≡ true → P x → Q (f x))
      → ((x : A) → p x ≡ false → P x → Q x)
      → (xs : List A) → All P xs
      → All Q (update_if p f xs)
  All-update_if P Q p f hit miss [] h = tt
  All-update_if P Q p f hit miss (x ∷ xs) h =
      (update_one (p x) refl, All-update_if P Q p f hit miss xs h.1)
    where
      update_one : (b : Bool) → p x ≡ b → Q (if b then f x else x)
      update_one true e = hit x e h.0
      update_one false e = miss x e h.0

pub update_if-none {ℓ} :
    {A : Type ℓ} (p : A → Bool) (f : A → A) (xs : List A)
    → count_if p xs ≡ 0
    → update_if p f xs ≡ xs
update_if-none p f [] h = refl
update_if-none p f (x ∷ xs) h = ground (arith, update_if-none p f xs)

pub All-Has {κ} : {A : Type 0} (P : A → Type κ) (a : A) (xs : List A) → All P xs → Has a xs → P a
All-Has P a [] h m = elim m [ ]
All-Has P a (x ∷ xs) h (inl e) = subst P e h.0
All-Has P a (x ∷ xs) h (inr m) = All-Has P a xs h.1 m

pub All-zip {ℓ κ} :
    {A : Type ℓ} (P Q : A → Type κ) (xs : List A) → All P xs → All Q xs → All (λ x. P x × Q x) xs
All-zip P Q [] h k = tt
All-zip P Q (x ∷ xs) h k = ((h.0, k.0), All-zip P Q xs h.1 k.1)

-- The rows that a filter keeps are the rows that pass.
pub Has-keep_if :
    {A : Type 0} (p : A → Bool) (c : A) (js : List A)
    → Has c (keep_if p js) ↔ (Has c js × (p c ≡ true))
Has-keep_if p c [] = ((λ h. absurd h), (λ h. h.0))
Has-keep_if {A} p c (j ∷ js) = split (p j) refl (Has-keep_if p c js)
  where
    there : {x y : Bool} → x ≡ true → x ≡ y → y ≡ true
    there a b = sym b ∙ a

    split :
        (b : Bool)
        → p j ≡ b
        → Has c (keep_if p js) ↔ (Has c js × (p c ≡ true))
        → Has c (if b then j ∷ keep_if p js else keep_if p js) ↔ (Has c (j ∷ js) × (p c ≡ true))
    split true e ih = (
      (λ h. elim h [ inl q ↦ (inl q, there e (ap p q)) | inr m ↦ (inr (ih.0 m).0, (ih.0 m).1) ]),
      (λ h. elim h.0 [ inl q ↦ inl q | inr m ↦ inr (ih.1 (m, h.1)) ]),
    )
    split false e ih = (
      (λ h. (inr (ih.0 h).0, (ih.0 h).1)),
      (λ h. elim h.0 [ inl q ↦ absurd (cc (sym e ∙ ap p q ∙ h.1)) | inr m ↦ ih.1 (m, h.1) ]),
    )
