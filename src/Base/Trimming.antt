-- ===== src/Base/Trimming.antt =====
-- `text.trim()` and `text.split(separator)` of the language.
use Prim.Native.Nat.{ℕ}
use Prim.Native.Char.{Char, code}
use Prim.Native.String.{String}
use mathlib.Core.Path.{◌≡◌, refl}
use mathlib.Core.Logic.{inl, inr}
use mathlib.Core.Bool.{Bool, true, false, ◌&&◌, ◌||◌, not}
use mathlib.Core.List.{List, [], ◌∷◌}
use native.Mathlib.Omega.{arith}
use trams_assignment.Base.Tests.{leb, ◌==◌, if◌then◌else◌, Bool-cases}

-- The white space and the line ends, by their codes.
abbrev pub is_space : ℕ → Bool
is_space c =
    (leb 9 c && leb c 13)
    || (c == 32)
    || (c == 160)
    || (c == 5760)
    || (leb 8192 c && leb c 8202)
    || (c == 8232)
    || (c == 8233)
    || (c == 8239)
    || (c == 8287)
    || (c == 12288)
    || (c == 65279)

unfoldable pub trim_start : String → String
trim_start String.[] = String.[]
trim_start (String.◌∷◌ c s) =
    let rest = trim_start s in if is_space (code c) then rest else String.◌∷◌ c s

-- A character before a text that is trimmed at its end.
abbrev trimmed_before : Char → String → String
trimmed_before c String.[] = if is_space (code c) then String.[] else String.◌∷◌ c String.[]
trimmed_before c (String.◌∷◌ d s) = String.◌∷◌ c (String.◌∷◌ d s)

unfoldable pub trim_end : String → String
trim_end String.[] = String.[]
trim_end (String.◌∷◌ c s) = trimmed_before c (trim_end s)

unfoldable pub trim : String → String
unfolding trim_start trim_end
trim s = trim_end (trim_start s)

abbrev prepended : Char → List String → List String
prepended c [] = String.◌∷◌ c String.[] ∷ []
prepended c (part ∷ parts) = String.◌∷◌ c part ∷ parts

-- The parts between the characters of a code.
unfoldable pub split_text : ℕ → String → List String
split_text separator String.[] = String.[] ∷ []
split_text separator (String.◌∷◌ c s) =
    let parts = split_text separator s in
    if code c == separator then String.[] ∷ parts else prepended c parts

-- No white space at the start, or at the end.
abbrev pub starts_clean : String → Bool
starts_clean String.[] = true
starts_clean (String.◌∷◌ c s) = not (is_space (code c))

abbrev pub ends_clean : String → Bool
ends_clean String.[] = true
ends_clean (String.◌∷◌ c String.[]) = not (is_space (code c))
ends_clean (String.◌∷◌ c (String.◌∷◌ d s)) = ends_clean (String.◌∷◌ d s)

trim_start-starts_clean : (s : String) → starts_clean (trim_start s) ≡ true
unfolding trim_start
trim_start-starts_clean String.[] = refl
trim_start-starts_clean (String.◌∷◌ c s) = elim (Bool-cases (is_space (code c))) [
  | inl space ↦ rw space (trim_start-starts_clean s)
  | inr other ↦ rw (other, other) refl
]

trimmed_before-ends_clean :
    (c : Char) (s : String) → ends_clean s ≡ true → ends_clean (trimmed_before c s) ≡ true
trimmed_before-ends_clean c String.[] h = elim (Bool-cases (is_space (code c))) [
  | inl space ↦ rw space refl
  | inr other ↦ rw (other, other) refl
]
trimmed_before-ends_clean c (String.◌∷◌ d s) h = h

trim_end-ends_clean : (s : String) → ends_clean (trim_end s) ≡ true
unfolding trim_end
trim_end-ends_clean String.[] = refl
trim_end-ends_clean (String.◌∷◌ c s) =
    trimmed_before-ends_clean c (trim_end s) (trim_end-ends_clean s)

trimmed_before-starts_clean :
    (c : Char) (s : String)
    → not (is_space (code c)) ≡ true
    → starts_clean (trimmed_before c s) ≡ true
trimmed_before-starts_clean c String.[] h = elim (Bool-cases (is_space (code c))) [
  | inl space ↦ rw space refl
  | inr other ↦ rw (other, other) refl
]
trimmed_before-starts_clean c (String.◌∷◌ d s) h = h

trim_end-starts_clean : (s : String) → starts_clean s ≡ true → starts_clean (trim_end s) ≡ true
unfolding trim_end
trim_end-starts_clean String.[] h = refl
trim_end-starts_clean (String.◌∷◌ c s) h = trimmed_before-starts_clean c (trim_end s) h

-- What `trim` returns has white space at neither end.
pub trim-clean : (s : String) → (starts_clean (trim s) ≡ true) × (ends_clean (trim s) ≡ true)
unfolding trim
trim-clean s = (
  trim_end-starts_clean (trim_start s) (trim_start-starts_clean s),
  trim_end-ends_clean (trim_start s),
)

-- A text with no white space.
abbrev pub no_space : String → Bool
no_space String.[] = true
no_space (String.◌∷◌ c s) = not (is_space (code c)) && no_space s

pub and_true : (a b : Bool) → (a && b) ≡ true → (a ≡ true) × (b ≡ true)
and_true a b h = ground arith

trim_start-no_space : (s : String) → no_space s ≡ true → trim_start s ≡ s
unfolding trim_start
trim_start-no_space String.[] h = refl
trim_start-no_space (String.◌∷◌ c s) h = elim (Bool-cases (is_space (code c))) [
  | inl space ↦ absurd (ground (arith, and_true (not (is_space (code c))) (no_space s) h))
  | inr other ↦ rw other refl
]

trimmed_before-other :
    (c : Char) (s : String) → is_space (code c) ≡ false → trimmed_before c s ≡ String.◌∷◌ c s
trimmed_before-other c String.[] h = rw h refl
trimmed_before-other c (String.◌∷◌ d s) h = refl

trim_end-no_space : (s : String) → no_space s ≡ true → trim_end s ≡ s
unfolding trim_end
trim_end-no_space String.[] h = refl
trim_end-no_space (String.◌∷◌ c s) h =
    let (other, rest) = and_true (not (is_space (code c))) (no_space s) h in
    rw (trim_end-no_space s rest) (trimmed_before-other c s (ground arith))

pub trim-no_space : (s : String) → no_space s ≡ true → trim s ≡ s
unfolding trim
trim-no_space s h = rw (trim_start-no_space s h) (trim_end-no_space s h)

trim_start-clean : (s : String) → starts_clean s ≡ true → trim_start s ≡ s
unfolding trim_start
trim_start-clean String.[] h = refl
trim_start-clean (String.◌∷◌ c s) h = elim (Bool-cases (is_space (code c))) [
  | inl space ↦ absurd (ground arith)
  | inr other ↦ rw other refl
]

trim_end-clean : (s : String) → ends_clean s ≡ true → trim_end s ≡ s
unfolding trim_end
trim_end-clean String.[] h = refl
trim_end-clean (String.◌∷◌ c String.[]) h = trimmed_before-other c String.[] (ground arith)
trim_end-clean (String.◌∷◌ c (String.◌∷◌ d s)) h = rw (trim_end-clean (String.◌∷◌ d s) h) refl

pub trim-trim : (s : String) → trim (trim s) ≡ trim s
unfolding trim
trim-trim s =
    let (starts, ends) = trim-clean s in
    rw (trim_start-clean (trim s) starts) (trim_end-clean (trim s) ends)
