-- ===== src/Tests/Coding.antt =====
-- A lossless coding of texts as bytes, for the runs: one number for each character.
use Prim.Native.Nat.{compare, Ordering}
use Prim.Native.Char.{Char, char, code, IsLt, IsScalar}
use Prim.Native.String.{◌∷◌ as ◌∷ᵗ◌, [] as []ᵗ}
use text.Mathlib.TextEquality.{IsScalar-prop}
use pyplexo.Base.{ℕ, ◌≡◌, refl, ap, String, Option, none, some, List, [], ◌∷◌}
use pyplexo.Codec.{Utf8}

abbrev InLastRange : Ordering → Ordering → Type 0
InLastRange Ordering.lt o = IsLt o
InLastRange Ordering.eq o = ⊥
InLastRange Ordering.gt o = ⊥

abbrev InRange : Ordering → Ordering → Ordering → Type 0
InRange Ordering.lt o p = Unit
InRange Ordering.eq o p = InLastRange o p
InRange Ordering.gt o p = InLastRange o p

abbrev is_lt : (o : Ordering) → Dec (IsLt o)
is_lt Ordering.lt = yes tt
is_lt Ordering.eq = no (λ h. h)
is_lt Ordering.gt = no (λ h. h)

abbrev is_in_last_range : (o p : Ordering) → Dec (InLastRange o p)
is_in_last_range Ordering.lt p = is_lt p
is_in_last_range Ordering.eq p = no (λ h. h)
is_in_last_range Ordering.gt p = no (λ h. h)

abbrev is_in_range : (o p q : Ordering) → Dec (InRange o p q)
is_in_range Ordering.lt p q = yes tt
is_in_range Ordering.eq p q = is_in_last_range p q
is_in_range Ordering.gt p q = is_in_last_range p q

abbrev is_scalar : (n : ℕ) → Dec (IsScalar n)
is_scalar n = is_in_range (compare n 55296) (compare 57343 n) (compare n 1114112)

abbrev char_of : ℕ → Option Char
char_of n = elim (is_scalar n) [ yes p ↦ some (char n p) | no _ ↦ none ]

char_found :
    (n : ℕ) (p : IsScalar n) (d : Dec (IsScalar n))
    → elim d [ yes q ↦ some (char n q) | no _ ↦ none ] ≡ some (char n p)
char_found n p (yes q) = ap (λ x. some (char n x)) (IsScalar-prop n q p)
char_found n p (no h) = absurd (h p)

char_of-code : (c : Char) → char_of (code c) ≡ some c
char_of-code (char n p) = char_found n p (is_scalar n)

abbrev codes : String → List ℕ
codes []ᵗ = []
codes (c ∷ᵗ s) = code c ∷ codes s

abbrev prepend : Option Char → Option String → Option String
prepend (some c) (some s) = some (c ∷ᵗ s)
prepend (some c) none = none
prepend none s = none

abbrev text_of : List ℕ → Option String
text_of [] = some []ᵗ
text_of (n ∷ ns) = prepend (char_of n) (text_of ns)

pub text_of-codes : (s : String) → text_of (codes s) ≡ some s
text_of-codes []ᵗ = refl
text_of-codes (c ∷ᵗ s) = rw (char_of-code c, text_of-codes s)

abbrev pub coding : Utf8
coding = record { encode = codes; decode = text_of; decode-encode = text_of-codes }
