-- ===== src/Users/Accounts.antt =====
-- Log-in, and the update of a user.
use trams_assignment.Base.{
  ℕ, ◌<◌, ◌≡◌, refl, ap, ap₂, fun_ext, subst, ◌∙◌, sym, ◌⊎◌, inl, inr, Bool, true, false,
  Bool-cases, Option, none, some, String, is_null, is_text_iff, or_default, ◌&&◌, str_eq,
  if◌then◌else◌, count, ok, Ensures, throw, returns, throws, and_then-Ensures, or_else-Ensures,
  Ensures-weaken, Ensures-known,
}
use trams_assignment.Database.{Fault}
use trams_assignment.Database.Rows.{update}
use trams_assignment.Users.{
  ServiceFault, other_error, LoginDto, UpdateUserDto, UserResponseDto, AuthenticatedUser,
  to_user_response, to_authenticated_user, update_user_data, wrong_credentials, no_user,
  email_in_use, is_unique_email_error, is_record_not_found_error, is_empty_update, hash_optional,
  update_record, authenticate, login, update_user,
}
use trams_assignment.Users.Records.{
  UserRecord, UserDatabase, PasswordHasher, IsSearched, is_email, is_id, is_missing, set_user,
  changed_name,
}
use trams_assignment.Users.SigningUp.{IsUntouched, IsUntouched-trans}

module _ {World : Type 0} {db : UserDatabase World} (passwords : PasswordHasher db)
    (input : LoginDto) where
  -- The answer describes a user of the table with the email, whose hash the password matches.
  pub record IsLoggedIn (w : World) (answer : AuthenticatedUser) (w' : World) : Type 0 where
    pub user : UserRecord
    pub found : IsSearched (is_email input.email) (db.users w) (some user)
    pub verified_in : World
    pub verified :
        (v : World) × (passwords.verify input.password user.password_hash verified_in
          ≡ (ok true, v))
    pub answered : answer ≡ to_authenticated_user user
    pub untouched : IsUntouched db w w'

  -- There is one answer to an unknown email and to a wrong password; what else is thrown comes from
  -- below.
  abbrev pub IsRefused : World → ServiceFault → World → Type 0
  IsRefused w e w' =
      ((e ≡ wrong_credentials) ⊎ ((f : Fault) × (e ≡ other_error f))) × IsUntouched db w w'

  authenticate-Ensures :
      (to_iso_string : ℕ → String) (found : Option UserRecord) (w w₁ : World)
      → IsSearched (is_email input.email) (db.users w) found
      → IsUntouched db w w₁
      → Ensures
          (λ a w'. IsLoggedIn w a w')
          (λ e w'. IsRefused w e w')
          (authenticate passwords to_iso_string input found w₁)
  unfolding authenticate
  authenticate-Ensures to_iso_string none w w₁ searched same = throws (inl refl, same)
  authenticate-Ensures to_iso_string (some user) w w₁ searched same =
      and_then-Ensures _
        (or_else-Ensures
          {R = λ b w₂.
            (passwords.verify input.password user.password_hash w₁ ≡ (ok b, w₂))
            × IsUntouched db w₁ w₂}
          _ (Ensures-known (passwords.verify_law input.password user.password_hash w₁))
          (λ b w₂ h. h)
          (λ e w₂ (ran, h). throws (inr (e, refl), IsUntouched-trans db w w₁ w₂ same h)))
        (λ b w₂ (ran, h). elim (Bool-cases b) [
          | inl good ↦ rw good (
              returns (record {
                user = user;
                found = searched;
                verified_in = w₁;
                verified = (w₂, ran ∙ ap (λ b. (ok b, w₂)) good);
                answered = refl;
                untouched = IsUntouched-trans db w w₁ w₂ same h;
              }))
          | inr bad ↦ rw bad (throws (inl refl, IsUntouched-trans db w w₁ w₂ same h))
        ])
        (λ e w₂ h. h)

  -- `login` returns only for a user of the table with the email given, and only after the hashing
  -- library has confirmed the password against the stored hash of that user; the answer describes
  -- that user. If it throws, it is the same error for an unknown email as for a wrong password, or
  -- an error from below. In any case neither table has changed.
  pub login-IsLoggedIn :
      (to_iso_string : ℕ → String) (w : World)
      → Ensures
          (λ a w'. IsLoggedIn w a w')
          (λ e w'. IsRefused w e w')
          (login passwords to_iso_string input w)
  unfolding login
  login-IsLoggedIn to_iso_string w =
      and_then-Ensures _
        (or_else-Ensures
          {R = λ found w₁.
            IsSearched (is_email input.email) (db.users w) found × IsUntouched db w w₁}
          _ (db.find_by_email_law input.email w)
          (λ found w₁ (searched, users, events). (searched, (users, events)))
          (λ e w₁ same. throws (inr (e, refl), same)))
        (λ found w₁ (searched, same). authenticate-Ensures to_iso_string found w w₁ searched same)
        (λ e w₁ h. h)

module _ {World : Type 0} {db : UserDatabase World} (passwords : PasswordHasher db)
    (to_iso_string : ℕ → String) (id : String) (input : UpdateUserDto) where
  -- What is stored for a password: a text that the hashing library has made of it in some state.
  abbrev pub IsHash : Option String → Option String → Type 0
  IsHash none none = Unit
  IsHash none (some h) = ⊥
  IsHash (some password) none = ⊥
  IsHash (some password) (some h) =
      (v : World) × (v' : World) × (passwords.hash password v ≡ (ok h, v'))

  -- The row after the update.
  abbrev pub changed : Option String → ℕ → UserRecord → UserRecord
  changed hash at r = record {
    id = r.id;
    email = or_default input.email r.email;
    password_hash = or_default hash r.password_hash;
    name = elim input.name [ none ↦ r.name | some name ↦ some name ];
    created_at = r.created_at;
    updated_at = at;
  }

  name_given :
      (name old : Option String)
      → changed_name name old ≡ elim name [ none ↦ old | some name ↦ some name ]
  name_given none old = refl
  name_given (some name) old = refl

  set_user-changed :
      (hash : Option String) (at : ℕ) (r : UserRecord)
      → set_user (update_user_data input hash) at r ≡ changed hash at r
  set_user-changed hash at r =
      ap (λ n. record (changed hash at r) { name = n }) (name_given input.name r.name)

  IsHash-is_null :
      (password hash : Option String) → IsHash password hash → is_null hash ≡ is_null password
  IsHash-is_null none none h = refl
  IsHash-is_null none (some x) h = absurd h
  IsHash-is_null (some p) none h = absurd h
  IsHash-is_null (some p) (some x) h = refl

  -- The row with the id was changed, in the fields given and in no other, and nothing else.
  pub record IsUpdated (w : World) (response : UserResponseDto) (w' : World) : Type 0 where
    pub hash : Option String
    pub updated_at : ℕ
    pub old : UserRecord
    pub has_id : old.id ≡ id
    pub listed : (q : UserRecord → Bool) → q old ≡ true → 0 < count q (db.users w)
    pub hashed : IsHash input.password hash
    pub not_empty : (is_null input.email && (is_null input.password && is_null input.name)) ≡ false
    pub users :
        db.users w' ≡ update (λ r. str_eq r.id id) (λ r. changed hash updated_at r) (db.users w)
    pub events : db.events w' ≡ db.events w
    pub answered : response ≡ to_user_response to_iso_string (changed hash updated_at old)

  abbrev pub IsNotUpdated : World → ServiceFault → World → Type 0
  IsNotUpdated w e w' = IsUntouched db w w' × (e ≡ no_user → count (is_id id) (db.users w) ≡ 0)

  hash_optional-Ensures :
      (password : Option String) (w : World)
      → Ensures
          (λ h w'. IsHash password h × IsUntouched db w w')
          (λ e w'. IsUntouched db w w')
          (hash_optional passwords to_iso_string password w)
  hash_optional-Ensures none w = returns (tt, (refl, refl))
  hash_optional-Ensures (some password) w =
      and_then-Ensures _ (Ensures-known (passwords.hash_law password w))
        (λ h w₁ (ran, same). returns ((w, w₁, ran), same)) (λ e w₁ (ran, same). same)

  -- The errors of the repository, as `updateUser` passes them on.
  refused-Ensures :
      {P : UserRecord → World → Type 0} (e : Fault) (w w₁ w₂ : World)
      → IsUntouched db w w₁
      → IsUntouched db w₁ w₂
      → (e.code ≡ some is_missing → count (is_id id) (db.users w₁) ≡ 0)
      → Ensures {S = World} {E = ServiceFault} {A = UserRecord} P
          (λ e' w'. IsNotUpdated w e' w')
          ((if is_unique_email_error e
              then throw email_in_use
              else if is_record_not_found_error e
              then throw no_user
              else throw (other_error e))
            w₂)
  refused-Ensures e w w₁ w₂ same same₂ missing =
      let both = IsUntouched-trans db w w₁ w₂ same same₂ in
      elim (Bool-cases (is_unique_email_error e)) [
        | inl unique ↦ rw unique (throws (both, λ h. cc))
        | inr other ↦ elim (Bool-cases (is_record_not_found_error e)) [
          | inl lost ↦
              rw (other, lost)
                (throws (
                  both,
                  λ h.
                      ap (count (is_id id)) (sym same.0)
                      ∙ missing ((is_text_iff e.code is_missing).0 lost),
                ))
          | inr found ↦ rw (other, found) (throws (both, λ h. cc))
        ]
      ]

  -- The statement of an update, after the password is hashed.
  update_record-Ensures :
      (hash : Option String) (w : World)
      → Ensures
          (λ user w'.
            (is_empty_update db (update_user_data input hash) ≡ false)
            × ((at : ℕ) × (db.users w'
                  ≡ update (is_id id) (set_user (update_user_data input hash) at) (db.users w))
                × ((old : UserRecord) × (old.id ≡ id)
                    × ((q : UserRecord → Bool) → q old ≡ true → 0 < count q (db.users w))
                    × (user ≡ set_user (update_user_data input hash) at old)))
            × (db.events w' ≡ db.events w))
          (λ e w'.
            IsUntouched db w w' × (e.code ≡ some is_missing → count (is_id id) (db.users w) ≡ 0))
          (update_record db id (update_user_data input hash) w)
  unfolding update_record
  update_record-Ensures hash w =
      elim (Bool-cases (is_empty_update db (update_user_data input hash))) [
        | inl empty ↦ rw empty (throws ((refl, refl), λ h. cc))
        | inr full ↦ rw full (
            Ensures-weaken
              (λ user w' (users, answer, events). (refl, (db.clock w, users, answer), events))
              (λ e w' (users, events, missing). ((users, events), missing))
              (db.update_user_law id (update_user_data input hash) w))
      ]

  -- `updateUser`. If it returns, at least one field was given, and the row with the id has the email
  -- and the name given, where they are, a text that the hashing library has made of the password
  -- given, if there is one, and a new `updatedAt`; no other row and no event was changed, and the
  -- answer describes the row as it is then. If it throws, neither table has changed, and it says that the
  -- user is not found only if no row has the id.
  pub update_user-IsUpdated :
      (w : World)
      → Ensures
          (λ response w'. IsUpdated w response w')
          (λ e w'. IsNotUpdated w e w')
          (update_user passwords to_iso_string id input w)
  unfolding update_user
  update_user-IsUpdated w =
      and_then-Ensures _
        (or_else-Ensures {R = λ h w₁. IsHash input.password h × IsUntouched db w w₁}
          {Q' = λ e w₁. IsNotUpdated w e w₁} _ (hash_optional-Ensures input.password w)
          (λ h w₁ p. p) (λ e w₁ same. throws (same, λ h. cc)))
        (λ h w₁ (hashed, same).
          and_then-Ensures _
            (or_else-Ensures _ (update_record-Ensures h w₁) (λ user w₂ p. p)
              (λ e w₂ (same₂, missing). refused-Ensures e w w₁ w₂ same same₂ missing))
            (λ user w₂ (full, (at, users, (old, has_id, listed, is_user)), events).
              returns (record {
                hash = h;
                updated_at = at;
                old = old;
                has_id = has_id;
                listed = λ q h. subst (λ rs. 0 < count q rs) same.0 (listed q h);
                hashed = hashed;
                not_empty =
                    ap (λ b. is_null input.email && (b && is_null input.name))
                      (sym (IsHash-is_null input.password h hashed))
                    ∙ full;
                users = users ∙ ap₂ (update (is_id id)) (fun_ext (set_user-changed h at)) same.0;
                events = events ∙ same.1;
                answered =
                    ap (to_user_response to_iso_string) (is_user ∙ set_user-changed h at old);
              }))
            (λ e w₂ q. q))
        (λ e w₁ q. q)
