-- ===== src/Tests/ContractTests.antt =====
-- The schemas of the contracts, with texts that lower the letter A, and a sign-up.
use trams_assignment.Base.{
  ◌≡◌, refl, ap, sym, ◌∙◌, ◌⊎◌, inl, inr, Bool, true, false, Bool-cases, none, some, List, [], ◌∷◌,
  ◌&&◌, ◌||◌, String, count_text, no_space, is_space, not, trim, if◌then◌else◌, ◌==◌, ==_iff, ◌≢◌,
  Result, ok, err, and_true, arith,
}
use Prim.Native.Char.{Char, code}
use text.Mathlib.TextLemmas.{length-cons}
use trams_assignment.Contracts.Schemas.{
  Check, trimmed, lower_case, email, uuid, datetime, min_length, max_length, ZodString, IsZod,
  passes, changed, create_user_dto, update_user_dto,
}
use trams_assignment.Contracts.Announcing.{IsAnnounced, sign_up-IsAnnounced}
use trams_assignment.Users.{CreateUserDto, sign_up, create_user}
use trams_assignment.Tests.UserTests.{open_hash, nobody, store, iso}

abbrev lowered : Char → Char
lowered c = if code c == 65 then "a" else c

unfoldable lower : String → String
lower String.[] = String.[]
lower (String.◌∷◌ c s) = String.◌∷◌ (lowered c) (lower s)

unfoldable has_at : String → Bool
has_at String.[] = false
has_at (String.◌∷◌ c s) = (code c == 64) || has_at s

abbrev is_address : String → Bool
is_address s = no_space s && has_at s

abbrev basic : ZodString
basic = record {
  parse = λ checks s. ok s;
  is_uuid = λ s. count_text s == 2;
  is_email = is_address;
  is_datetime = λ s. count_text s == 24;
  to_lower = lower;
}

abbrev parse : List Check → String → Result String String
parse [] s = ok s
parse (check ∷ checks) s =
    let rest = parse checks (changed basic check s) in
    if passes basic check s then rest else err "Invalid"

abbrev zod : ZodString
zod = record basic { parse = parse }

passes-basic : (check : Check) (s : String) → passes zod check s ≡ passes basic check s
passes-basic trimmed s = refl
passes-basic lower_case s = refl
passes-basic uuid s = refl
passes-basic email s = refl
passes-basic datetime s = refl
passes-basic (min_length n) s = refl
passes-basic (max_length n) s = refl

changed-basic : (check : Check) (s : String) → changed zod check s ≡ changed basic check s
changed-basic trimmed s = refl
changed-basic lower_case s = refl
changed-basic uuid s = refl
changed-basic email s = refl
changed-basic datetime s = refl
changed-basic (min_length n) s = refl
changed-basic (max_length n) s = refl

lowered-code : (c : Char) → (lowered c ≡ "a") ⊎ (lowered c ≡ c)
lowered-code c = elim (Bool-cases (code c == 65)) [
  | inl capital ↦ inl (rw capital refl)
  | inr other ↦ inr (rw other refl)
]

lowered-lowered : (c : Char) → lowered (lowered c) ≡ lowered c
lowered-lowered c = elim (lowered-code c) [
  | inl small ↦ ap lowered small ∙ sym small
  | inr same ↦ ap lowered same
]

lowered-not_space : (c : Char) → is_space (code c) ≡ false → is_space (code (lowered c)) ≡ false
lowered-not_space c h = elim (lowered-code c) [
  | inl small ↦ ap (λ d. is_space (code d)) small
  | inr same ↦ ap (λ d. is_space (code d)) same ∙ h
]

lower-lower : (s : String) → lower (lower s) ≡ lower s
unfolding lower
lower-lower String.[] = refl
lower-lower (String.◌∷◌ c s) = rw (lowered-lowered c, lower-lower s) refl

count-lower : (s : String) → count_text (lower s) ≡ count_text s
unfolding lower
count-lower String.[] = refl
count-lower (String.◌∷◌ c s) =
    omega (arith, length-cons (lowered c) (lower s), length-cons c s, count-lower s)

lower-no_space : (s : String) → no_space s ≡ true → no_space (lower s) ≡ true
unfolding lower
lower-no_space String.[] h = refl
lower-no_space (String.◌∷◌ c s) h =
    let (other, rest) = and_true (not (is_space (code c))) (no_space s) h in
    rw (lowered-not_space c (ground arith), lower-no_space s rest) refl

lowered-at : (c : Char) → (code (lowered c) == 64) ≡ (code c == 64)
lowered-at c = elim (Bool-cases (code c == 65)) [
  | inl capital ↦ rw (capital, (==_iff (code c) 65).0 capital) refl
  | inr other ↦ rw other refl
]

lower-has_at : (s : String) → has_at s ≡ true → has_at (lower s) ≡ true
unfolding lower has_at
lower-has_at String.[] h = h
lower-has_at (String.◌∷◌ c s) h = rw (lowered-at c) (elim (Bool-cases (code c == 64)) [
  | inl at ↦ rw at refl
  | inr other ↦ rw other (lower-has_at s (ground arith))
])

is_address-lower : (s : String) → is_address s ≡ true → is_address (lower s) ≡ true
is_address-lower s h =
    let (clean, at) = and_true (no_space s) (has_at s) h in
    rw (lower-no_space s clean) (lower-has_at s at)

parse-pass :
    (check : Check) (checks : List Check) (s : String)
    → passes zod check s ≡ true
    → parse (check ∷ checks) s ≡ parse checks (changed zod check s)
parse-pass check checks s h =
    rw (sym (passes-basic check s) ∙ h) (ap (parse checks) (sym (changed-basic check s)))

parse-fail :
    (check : Check) (checks : List Check) (s o : String)
    → passes zod check s ≡ false
    → parse (check ∷ checks) s ≢ ok o
parse-fail check checks s o h = rw (sym (passes-basic check s) ∙ h) (λ same. absurd cc)

zod-IsZod : IsZod zod
zod-IsZod = record {
  end_law = λ s. refl;
  pass_law = parse-pass;
  fail_law = parse-fail;
  email_space = λ s h. (and_true (no_space s) (has_at s) h).0;
  email_lower = is_address-lower;
  lower_length = λ s h. count-lower s;
  lower_lower = λ s h. lower-lower s;
}

abbrev typed : CreateUserDto
typed = record { email = " Ada@example.com "; password = "correct horse"; name = some "Ada " }

abbrev ada : CreateUserDto
ada = record { email = "ada@example.com"; password = "correct horse"; name = some "Ada" }

read_example : create_user_dto zod typed ≡ ok ada
unfolding lower has_at trim
read_example = refl

-- An update without a field is refused.
update_example :
    update_user_dto zod (record { email = none; password = none; name = none })
    ≡ err "Provide at least one field to update"
update_example = refl

sign_up-IsAnnounced_example :
    IsAnnounced zod-IsZod store ada nobody
      (record {
        id = "u1";
        email = "ada@example.com";
        name = some "Ada";
        created_at = iso 1000;
        updated_at = iso 1000;
      })
      (sign_up open_hash iso ada "e1" nobody).1
unfolding sign_up create_user
sign_up-IsAnnounced_example =
    sign_up-IsAnnounced zod-IsZod iso (λ t. refl) open_hash typed ada "e1" nobody _ _ read_example
      refl refl refl
