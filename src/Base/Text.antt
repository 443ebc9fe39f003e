-- ===== src/Base/Text.antt =====
-- Python's text operations that the code uses on whole texts: blank texts, concatenation, order.
use Prim.Native.Nat.{ℕ, zero, suc, ◌/◌, ◌%◌, compare as compare_ℕ, Ordering}
use Prim.Native.Char.{Char, code}
use Prim.Native.String.compare
use Prim.Native.String.{String, compare, then as then_by, ◌++◌ as str_append}
use mathlib.Core.Path.{◌≡◌, refl, sym, ap, ◌∙◌}
use mathlib.Core.Bool.{Bool, true, false, ◌&&◌, ◌||◌}
use mathlib.Core.List.{List, [], ◌∷◌}
use native.Mathlib.Omega.{arith}
use text.Mathlib.Text.{is_le, ◌==◌ as str_eq}
use text.Mathlib.TextEquality.{eq_iff}
use mathlib.Core.Logic.{◌≢◌, inl, inr}
use vendorops_ai.Base.Tests.{Bool-cases, ltb, leb, ◌==◌, if◌then◌else◌}

abbrev pub codes : String → List ℕ
codes String.[] = []
codes (String.◌∷◌ c s) = code c ∷ codes s

-- The characters that `str.strip()` removes.
unfoldable pub is_space : ℕ → Bool
is_space c =
    leb 9 c && leb c 13
    || leb 28 c && leb c 32
    || c == 133
    || c == 160
    || c == 5760
    || leb 8192 c && leb c 8202
    || c == 8232
    || c == 8233
    || c == 8239
    || c == 8287
    || c == 12288

all_space : List ℕ → Bool
all_space [] = true
all_space (c ∷ cs) = is_space c && all_space cs

-- `not s.strip()`
unfoldable pub is_blank : String → Bool
unfolding all_space is_space
is_blank s = all_space (codes s)

-- `s <= t`
abbrev pub str_leb : String → String → Bool
str_leb s t = is_le (compare s t)

flip : Ordering → Ordering
flip Ordering.lt = Ordering.gt
flip Ordering.eq = Ordering.eq
flip Ordering.gt = Ordering.lt

flip-compare : (a b : ℕ) → flip (compare_ℕ a b) ≡ compare_ℕ b a
unfolding flip
flip-compare a b = ground arith

flip-then : (o p : Ordering) → flip (then_by o p) ≡ then_by (flip o) (flip p)
unfolding flip
flip-then Ordering.lt p = refl
flip-then Ordering.eq p = refl
flip-then Ordering.gt p = refl

compare_swap : (s t : String) → flip (compare s t) ≡ compare t s
unfolding flip
compare_swap String.[] String.[] = ap flip compare.nil-nil ∙ sym compare.nil-nil
compare_swap String.[] (String.◌∷◌ d t) =
    ap flip (compare.nil-cons d t) ∙ sym (compare.cons-nil d t)
compare_swap (String.◌∷◌ c s) String.[] =
    ap flip (compare.cons-nil c s) ∙ sym (compare.nil-cons c s)
compare_swap (String.◌∷◌ c s) (String.◌∷◌ d t) =
    ap flip (compare.cons-cons c d s t)
    ∙ flip-then (compare_ℕ (code c) (code d)) (compare s t)
    ∙ cc (flip-compare (code c) (code d), compare_swap s t)
    ∙ sym (compare.cons-cons d c t s)

le_of_flip : (o : Ordering) → is_le o ≡ false → is_le (flip o) ≡ true
unfolding flip
le_of_flip Ordering.lt h = cc
le_of_flip Ordering.eq h = refl
le_of_flip Ordering.gt h = refl

-- The order of texts is total.
pub str_leb_total : (s t : String) → str_leb s t ≡ false → str_leb t s ≡ true
str_leb_total s t h = rw (← compare_swap s t) (le_of_flip (compare s t) h)

digit : ℕ → String
digit zero = "0"
digit (suc zero) = "1"
digit (suc (suc zero)) = "2"
digit (suc (suc (suc zero))) = "3"
digit (suc (suc (suc (suc zero)))) = "4"
digit (suc (suc (suc (suc (suc zero))))) = "5"
digit (suc (suc (suc (suc (suc (suc zero)))))) = "6"
digit (suc (suc (suc (suc (suc (suc (suc zero))))))) = "7"
digit (suc (suc (suc (suc (suc (suc (suc (suc zero)))))))) = "8"
digit _ = "9"

-- The digits of a number before a text; as fuel the number itself is more than its length.
decimal : ℕ → ℕ → String → String
unfolding digit
decimal zero n acc = acc
decimal (suc fuel) n acc =
    let longer = decimal fuel (n / 10) (str_append (digit (n % 10)) acc) in
    if ltb n 10 then str_append (digit n) acc else longer

-- `str(n)`
unfoldable pub str_of_number : ℕ → String
unfolding decimal
str_of_number n = decimal (suc n) n ""

str_of_1207 : str_of_number 1207 ≡ "1207"
unfolding str_of_number
str_of_1207 = refl

pub unequal : (s t : String) → str_eq s t ≡ false → s ≢ t
unequal s t h e = absurd (cc (h, (eq_iff s t).1 e))

-- `s.lstrip()`
unfoldable pub strip_left : String → String
unfolding is_space
strip_left String.[] = String.[]
strip_left (String.◌∷◌ c s) =
    let rest = strip_left s in if is_space (code c) then rest else String.◌∷◌ c s

append_kept : Bool → Char → String → String
append_kept true c String.[] = String.[]
append_kept _ c s = String.◌∷◌ c s

-- `s.rstrip()`
unfoldable pub strip_right : String → String
unfolding is_space append_kept
strip_right String.[] = String.[]
strip_right (String.◌∷◌ c s) = append_kept (is_space (code c)) c (strip_right s)

-- `s.strip()`
unfoldable pub strip : String → String
unfolding strip_left strip_right
strip s = strip_right (strip_left s)

strip_both_ends : strip " a b  " ≡ "a b"
unfolding strip
strip_both_ends = refl

pub str_eq-ne : (s t : String) → s ≢ t → str_eq s t ≡ false
str_eq-ne s t n = elim (Bool-cases (str_eq s t)) [
  | inl e ↦ absurd (n ((eq_iff s t).0 e))
  | inr e ↦ e
]
