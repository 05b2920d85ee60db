-- ===== src/Tests/ParsingTests.antt =====
-- A parser of environments, which checks what it has parsed.
use trams_assignment.Base.{
  zero, suc, ◌≡◌, refl, ap, ap₂, ◌∙◌, inl, inr, Bool, true, false, ◌&&◌, ◌||◌, Bool-cases, Option,
  none, some, List, [], ◌∷◌, String, str_eq, eq_iff, count_text, trim, leb, if◌then◌else◌, All,
  and_true, or_default, Number, whole, negative, not_whole, Result, ok, err, arith,
}
use trams_assignment.Environment.{
  Check, int, positive, at_least, at_most, FieldSchema, choice, url, free_text, coerced_number,
  transformed, Schema, Value, text_value, number_value, list_value, ProcessEnv, Parsed, Issue,
  Passes, OneOf, Fits, Zod,
}

unfoldable pub passes : Number → Check → Bool
passes (whole n) int = true
passes (whole zero) positive = false
passes (whole (suc n)) positive = true
passes (whole n) (at_least m) = leb m n
passes (whole n) (at_most m) = leb n m
passes (negative n) int = true
passes (negative n) positive = false
passes (negative n) (at_least m) = false
passes (negative n) (at_most m) = true
passes not_whole int = false
passes not_whole positive = true
passes not_whole (at_least m) = true
passes not_whole (at_most m) = true

passes-Passes : (n : Number) (c : Check) → passes n c ≡ true → Passes n c
unfolding passes
passes-Passes (whole n) int h = tt
passes-Passes (whole zero) positive h = cc
passes-Passes (whole (suc n)) positive h = tt
passes-Passes (whole n) (at_least m) h = ground arith
passes-Passes (whole n) (at_most m) h = ground arith
passes-Passes (negative n) int h = tt
passes-Passes (negative n) positive h = cc
passes-Passes (negative n) (at_least m) h = cc
passes-Passes (negative n) (at_most m) h = tt
passes-Passes not_whole int h = cc
passes-Passes not_whole positive h = tt
passes-Passes not_whole (at_least m) h = tt
passes-Passes not_whole (at_most m) h = tt

unfoldable pub all_pass : Number → List Check → Bool
all_pass n [] = true
all_pass n (c ∷ cs) = passes n c && all_pass n cs

all_pass-Passes : (n : Number) (cs : List Check) → all_pass n cs ≡ true → All (Passes n) cs
unfolding all_pass
all_pass-Passes n [] h = tt
all_pass-Passes n (c ∷ cs) h =
    let (first, rest) = and_true (passes n c) (all_pass n cs) h in
    (passes-Passes n c first, all_pass-Passes n cs rest)

unfoldable pub one_of : String → List String → Bool
one_of t [] = false
one_of t (value ∷ values) = str_eq t value || one_of t values

one_of-OneOf : (t : String) (values : List String) → one_of t values ≡ true → OneOf t values
unfolding one_of
one_of-OneOf t [] h = cc
one_of-OneOf t (value ∷ values) h = elim (Bool-cases (str_eq t value)) [
  | inl is ↦ inl ((eq_iff t value).0 is)
  | inr other ↦ inr (one_of-OneOf t values (ground arith))
]

unfoldable pub same_list : List String → List String → Bool
same_list [] [] = true
same_list [] (t ∷ ts) = false
same_list (s ∷ ss) [] = false
same_list (s ∷ ss) (t ∷ ts) = str_eq s t && same_list ss ts

same_list-eq : (ss ts : List String) → same_list ss ts ≡ true → ss ≡ ts
unfolding same_list
same_list-eq [] [] h = refl
same_list-eq [] (t ∷ ts) h = cc
same_list-eq (s ∷ ss) [] h = cc
same_list-eq (s ∷ ss) (t ∷ ts) h =
    let (first, rest) = and_true (str_eq s t) (same_list ss ts) h in
    ap₂ (◌∷◌) ((eq_iff s t).0 first) (same_list-eq ss ts rest)

-- The test of a value against the schema of its variable, with the variable.
unfoldable pub fits : Option String → FieldSchema → Value → Bool
fits v (choice values fallback) (text_value t) = one_of t values
fits v url (text_value t) = true
fits v (free_text trimmed min_length fallback) (text_value t) = leb min_length (count_text t)
fits v (coerced_number checks fallback) (number_value n) = all_pass n checks
fits v (transformed fallback transform) (list_value ts) =
    same_list ts (transform (or_default v fallback))
fits v field value = false

fits-Fits :
    (env : ProcessEnv) (parsed : Parsed) (name : String) (field : FieldSchema) (value : Value)
    → parsed name ≡ value
    → fits (env name) field value ≡ true
    → Fits env parsed (name, field)
unfolding fits
fits-Fits env parsed name (choice values fallback) (text_value t) is h =
    (t, is, inr (one_of-OneOf t values h))
fits-Fits env parsed name (choice values fallback) (number_value n) is h = cc
fits-Fits env parsed name (choice values fallback) (list_value ts) is h = cc
fits-Fits env parsed name url (text_value t) is h = (t, is)
fits-Fits env parsed name url (number_value n) is h = cc
fits-Fits env parsed name url (list_value ts) is h = cc
fits-Fits env parsed name (free_text trimmed low fallback) (text_value t) is h =
    (t, is, inr (ground arith))
fits-Fits env parsed name (free_text trimmed low fallback) (number_value n) is h = cc
fits-Fits env parsed name (free_text trimmed low fallback) (list_value ts) is h = cc
fits-Fits env parsed name (coerced_number checks fallback) (text_value t) is h = cc
fits-Fits env parsed name (coerced_number checks fallback) (number_value n) is h =
    (n, is, inr (all_pass-Passes n checks h))
fits-Fits env parsed name (coerced_number checks fallback) (list_value ts) is h = cc
fits-Fits env parsed name (transformed fallback transform) (text_value t) is h = cc
fits-Fits env parsed name (transformed fallback transform) (number_value n) is h = cc
fits-Fits env parsed name (transformed fallback transform) (list_value ts) is h =
    is ∙ ap list_value (same_list-eq ts (transform (or_default (env name) fallback)) h)

unfoldable pub all_fit : ProcessEnv → Parsed → Schema → Bool
all_fit env parsed [] = true
all_fit env parsed (field ∷ fields) =
    fits (env field.0) field.1 (parsed field.0) && all_fit env parsed fields

all_fit-Fits :
    (env : ProcessEnv) (parsed : Parsed) (schema : Schema)
    → all_fit env parsed schema ≡ true
    → All (Fits env parsed) schema
unfolding all_fit
all_fit-Fits env parsed [] h = tt
all_fit-Fits env parsed (field ∷ fields) h =
    let (first, rest) =
      and_true (fits (env field.0) field.1 (parsed field.0)) (all_fit env parsed fields) h in
    (
      fits-Fits env parsed field.0 field.1 (parsed field.0) refl first,
      all_fit-Fits env parsed fields rest,
    )

-- The numbers that the tests write.
abbrev number_in : String → Number
number_in t = if str_eq t "20" then whole 20 else if str_eq t "2.5" then not_whole else negative 0

abbrev text_in : Bool → String → String
text_in true t = trim t
text_in false t = t

abbrev field_value : FieldSchema → Option String → Value
field_value (choice values fallback) v = text_value (or_default v fallback)
field_value url v = text_value (or_default v "")
field_value (free_text trimmed low fallback) none = text_value (or_default fallback "")
field_value (free_text trimmed low fallback) (some t) = text_value (text_in trimmed t)
field_value (coerced_number checks fallback) none = number_value (whole fallback)
field_value (coerced_number checks fallback) (some t) = number_value (number_in t)
field_value (transformed fallback transform) v = list_value (transform (or_default v fallback))

unfoldable pub values : Schema → ProcessEnv → Parsed
values [] env name = text_value ""
values (field ∷ fields) env name =
    let later = values fields env name in
    if str_eq field.0 name then field_value field.1 (env field.0) else later

unfoldable pub checked : Bool → Parsed → Result (List Issue) Parsed
checked true parsed = ok parsed
checked false parsed = err (record { path = ""; message = "Invalid" } ∷ [])

checked-ok :
    (fit : Bool) (g parsed : Parsed) → checked fit g ≡ ok parsed → (fit ≡ true) × (g ≡ parsed)
unfolding checked
checked-ok true g parsed h = (refl, cc)
checked-ok false g parsed h = cc

unfoldable pub parse : Schema → ProcessEnv → Result (List Issue) Parsed
unfolding checked all_fit values fits all_pass passes one_of same_list
parse schema env = checked (all_fit env (values schema env) schema) (values schema env)

pub parse-Fits :
    (schema : Schema) (env : ProcessEnv) (parsed : Parsed)
    → parse schema env ≡ ok parsed
    → All (Fits env parsed) schema
unfolding parse
parse-Fits schema env parsed h =
    let (fit, is) =
      checked-ok (all_fit env (values schema env) schema) (values schema env) parsed h in
    rw (← is) (all_fit-Fits env (values schema env) schema fit)

abbrev pub zod : Zod
zod = record { safe_parse = parse; safe_parse_law = parse-Fits }
