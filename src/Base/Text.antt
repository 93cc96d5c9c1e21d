-- ===== src/Base/Text.antt =====
-- `strings.TrimSpace` of the Go library, over texts that are valid UTF-8.
use Prim.Native.Nat.{ℕ, zero, suc, ◌+◌, ◌/◌, ◌%◌}
use Prim.Native.Char.{Char, code}
use Prim.Native.String.{String, char_at, ◌++◌ as append}
use mathlib.Core.Path.{◌≡◌, refl}
use mathlib.Core.Logic.{inl, inr}
use mathlib.Core.Bool.{Bool, true, false, ◌&&◌, ◌||◌}
use fornix.Base.Tests.{leb, ltb, ◌==◌, if◌then◌else◌, Bool-cases}

-- `unicode.IsSpace`.
is_space : ℕ → Bool
is_space c =
    (leb 9 c && leb c 13)
    || c == 32
    || c == 0x85
    || c == 0xa0
    || c == 0x1680
    || (leb 0x2000 c && leb c 0x200a)
    || c == 0x2028
    || c == 0x2029
    || c == 0x202f
    || c == 0x205f
    || c == 0x3000

abbrev pub is_empty : String → Bool
is_empty String.[] = true
is_empty (String.◌∷◌ c s) = false

trim_left : String → String
trim_left String.[] = String.[]
trim_left (String.◌∷◌ c s) =
    let rest = trim_left s in if is_space (code c) then rest else String.◌∷◌ c s

-- What is left of a character once the text behind it is trimmed.
cons_trimmed : Char → String → String
cons_trimmed c rest = if is_empty rest && is_space (code c) then String.[] else String.◌∷◌ c rest

trim_right : String → String
unfolding cons_trimmed
trim_right String.[] = String.[]
trim_right (String.◌∷◌ c s) = cons_trimmed c (trim_right s)

unfoldable pub trim : String → String
unfolding trim_left trim_right is_space
trim s = trim_right (trim_left s)

-- The text begins with no space.
abbrev StartsTight : String → Type 0
StartsTight String.[] = Unit {0}
StartsTight (String.◌∷◌ c s) = is_space (code c) ≡ false

trim_left_tight : (s : String) → StartsTight (trim_left s)
unfolding trim_left
trim_left_tight String.[] = tt
trim_left_tight (String.◌∷◌ c s) = elim (Bool-cases (is_space (code c))) [
  | inl e ↦ rw e (trim_left_tight s)
  | inr e ↦ rw e e
]

trim_left_of_tight : (s : String) → StartsTight s → trim_left s ≡ s
unfolding trim_left
trim_left_of_tight String.[] h = refl
trim_left_of_tight (String.◌∷◌ c s) h = rw h

cons_trimmed-tight :
    (c : Char) (r : String) → is_space (code c) ≡ false → StartsTight (cons_trimmed c r)
unfolding cons_trimmed
cons_trimmed-tight c String.[] h = rw h h
cons_trimmed-tight c (String.◌∷◌ d r) h = h

trim_right-tight : (s : String) → StartsTight s → StartsTight (trim_right s)
unfolding trim_right
trim_right-tight String.[] h = tt
trim_right-tight (String.◌∷◌ c s) h = cons_trimmed-tight c (trim_right s) h

trim_right-cons_trimmed :
    (c : Char) (r : String) → trim_right r ≡ r → trim_right (cons_trimmed c r) ≡ cons_trimmed c r
unfolding trim_right
trim_right-cons_trimmed c String.[] h = elim (Bool-cases (is_space (code c))) [
  | inl e ↦ rw e
  | inr e ↦ rw e (rw e)
]
trim_right-cons_trimmed c (String.◌∷◌ d r) h = rw h

trim_right_idem : (s : String) → trim_right (trim_right s) ≡ trim_right s
unfolding trim_right
trim_right_idem String.[] = refl
trim_right_idem (String.◌∷◌ c s) = trim_right-cons_trimmed c (trim_right s) (trim_right_idem s)

-- Trimming a trimmed text changes nothing.
pub trim_idem : (s : String) → trim (trim s) ≡ trim s
unfolding trim
trim_idem s =
    rw (trim_left_of_tight _ (trim_right-tight _ (trim_left_tight s)))
      (trim_right_idem (trim_left s))

-- `%d` of a number that is not negative: its digits, on fuel. A number has at most as many digits as
-- it counts, and one.
show_digits : ℕ → ℕ → String
show_digits zero n = String.[]
show_digits (suc fuel) n =
    let last = String.◌∷◌ (char_at "0123456789" (n % 10)) String.[] in
    let before = show_digits fuel (n / 10) in if ltb n 10 then last else append before last

unfoldable pub show_nat : ℕ → String
unfolding show_digits
show_nat n = show_digits (n + 1) n
