-- ===== src/Gateway/RequestIds.antt =====
-- The ids of requests, `genReqId` of apps/api-gateway/src/app.ts.
use Prim.Native.Char.{code}
use trams_assignment.Base.{
  ℕ, ◌≤◌, ◌≡◌, refl, ◌⊎◌, inl, inr, true, false, ◌&&◌, Option, none, some, String, count_text, trim,
  is_space, no_space, trim-no_space, and_true, leb, Bool-cases, arith,
}
use trams_assignment.Gateway.App.{is_id_code, all_id_codes, is_request_id, gen_req_id}

id_code_range : (c : ℕ) → is_id_code c ≡ true → (45 ≤ c) × (c ≤ 122)
id_code_range c h = ground arith

is_space-range : (c : ℕ) → 45 ≤ c → c ≤ 122 → is_space c ≡ false
is_space-range c low high = ground arith

id_code-not_space : (c : ℕ) → is_id_code c ≡ true → is_space c ≡ false
id_code-not_space c h = is_space-range c (id_code_range c h).0 (id_code_range c h).1

-- What holds of the code of each character.
abbrev pub AllCodes : (ℕ → Type 0) → String → Type 0
AllCodes P String.[] = Unit
AllCodes P (String.◌∷◌ c s) = P (code c) × AllCodes P s

all_id_codes-AllCodes :
    (s : String) → all_id_codes s ≡ true → AllCodes (λ c. (45 ≤ c) × (c ≤ 122)) s
all_id_codes-AllCodes String.[] h = tt
all_id_codes-AllCodes (String.◌∷◌ c s) h =
    let (first, rest) = and_true (is_id_code (code c)) (all_id_codes s) h in
    (id_code_range (code c) first, all_id_codes-AllCodes s rest)

all_id_codes-no_space : (s : String) → all_id_codes s ≡ true → no_space s ≡ true
all_id_codes-no_space String.[] h = refl
all_id_codes-no_space (String.◌∷◌ c s) h =
    let (first, rest) = and_true (is_id_code (code c)) (all_id_codes s) h in
    rw (id_code-not_space (code c) first) (all_id_codes-no_space s rest)

-- An id of a request: between 1 and 128 characters, none a control character or white space.
abbrev pub IsPlain : String → Type 0
IsPlain id = (1 ≤ count_text id) × (count_text id ≤ 128) × AllCodes (λ c. (45 ≤ c) × (c ≤ 122)) id

is_request_id-parts :
    (s : String)
    → is_request_id s ≡ true
    → (1 ≤ count_text s) × (count_text s ≤ 128) × (all_id_codes s ≡ true)
unfolding is_request_id
is_request_id-parts s h =
    let (some_text, rest) =
      and_true (leb 1 (count_text s)) (leb (count_text s) 128 && all_id_codes s) h in
    let (short, codes) = and_true (leb (count_text s) 128) (all_id_codes s) rest in
    (ground arith, ground arith, codes)

is_request_id-IsPlain : (s : String) → is_request_id s ≡ true → IsPlain s
is_request_id-IsPlain s h =
    let (some_text, short, codes) = is_request_id-parts s h in
    (some_text, short, all_id_codes-AllCodes s codes)

gen_req_id-kept : (id uuid : String) → is_request_id id ≡ true → gen_req_id (some id) uuid ≡ id
unfolding gen_req_id
gen_req_id-kept id uuid h =
    let (_, _, codes) = is_request_id-parts id h in
    rw (trim-no_space id (all_id_codes-no_space id codes), h) refl

chosen :
    (incoming : Option String) (uuid : String)
    → is_request_id uuid ≡ true
    → (is_request_id (gen_req_id incoming uuid) ≡ true)
      × ((gen_req_id incoming uuid ≡ uuid)
          ⊎ ((value : String) × (incoming ≡ some value) × (gen_req_id incoming uuid ≡ trim value)))
unfolding gen_req_id
chosen none uuid h = (h, inl refl)
chosen (some value) uuid h = elim (Bool-cases (is_request_id (trim value))) [
  | inl fits ↦ (rw (fits, fits) refl, inr (value, refl, rw fits refl))
  | inr other ↦ (rw (other, h) refl, inl (rw other refl))
]

-- The id of a request is the new UUID or what the header `x-request-id` holds, without the white space
-- at its ends. Provided that the UUID is of the form of an id, the id has between 1 and 128
-- characters, none of them a control character or white space; and another gateway that receives it in
-- that header takes the very same id for its own request.
pub gen_req_id-IsPlain :
    (incoming : Option String) (uuid uuid' : String)
    → is_request_id uuid ≡ true
    → IsPlain (gen_req_id incoming uuid)
      × (gen_req_id (some (gen_req_id incoming uuid)) uuid' ≡ gen_req_id incoming uuid)
      × ((gen_req_id incoming uuid ≡ uuid)
          ⊎ ((value : String) × (incoming ≡ some value) × (gen_req_id incoming uuid ≡ trim value)))
gen_req_id-IsPlain incoming uuid uuid' h =
    let (fits, source) = chosen incoming uuid h in
    (
      is_request_id-IsPlain (gen_req_id incoming uuid) fits,
      gen_req_id-kept (gen_req_id incoming uuid) uuid' fits,
      source,
    )
