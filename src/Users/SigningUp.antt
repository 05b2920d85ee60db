-- ===== src/Users/SigningUp.antt =====
-- Sign-up: the user and the event that announces it are stored together or not at all.
use trams_assignment.Base.{
  ℕ, ◌≡◌, refl, ap, ◌∙◌, sym, subst, inl, inr, Bool-cases, List, [], ◌∷◌, ◌++◌, String, is_null,
  count, ok, Ensures, returns, throws, and_then-Ensures, or_else-Ensures, Ensures-weaken,
  Ensures-known, of_ok,
}
use trams_assignment.Contracts.{UserCreatedEvent, user_created}
use trams_assignment.Users.{
  CreateUserDto, UserResponseDto, create_user_data, to_user_response, to_user_created_event,
  is_unique_email_error, create_user, register, sign_up,
}
use trams_assignment.Users.Records.{
  UserRecord, CreateUserData, UserDatabase, PasswordHasher, new_outbox_event, is_email,
}

append_to :
    {A : Type 0} {xs xs' zs : List A} (ys : List A) → zs ≡ xs ++ ys → xs ≡ xs' → zs ≡ xs' ++ ys
append_to ys p q = p ∙ ap (λ rs. rs ++ ys) q

module _ {World : Type 0} (db : UserDatabase World) where
  -- Neither table has changed.
  abbrev pub IsUntouched : World → World → Type 0
  IsUntouched w w' = (db.users w' ≡ db.users w) × (db.events w' ≡ db.events w)

  pub IsUntouched-trans :
      (w w₁ w₂ : World) → IsUntouched w w₁ → IsUntouched w₁ w₂ → IsUntouched w w₂
  IsUntouched-trans w w₁ w₂ (u, e) (u', e') = (u' ∙ u, e' ∙ e)

  -- One user with the data was added, whose email was free, and one pending event for it, made by
  -- `create_event` when the user was there.
  pub record IsCreated (fields : CreateUserData) (create_event : ℕ → UserRecord → UserCreatedEvent)
      (w : World) (user : UserRecord) (w' : World) : Type 0 where
    pub made_at : ℕ
    pub email : user.email ≡ fields.email
    pub password_hash : user.password_hash ≡ fields.password_hash
    pub name : user.name ≡ fields.name
    pub was_free : count (is_email fields.email) (db.users w) ≡ 0
    pub users : db.users w' ≡ db.users w ++ user ∷ []
    pub events :
        db.events w'
        ≡ db.events w
          ++ new_outbox_event
              (record {
                id = (create_event made_at user).event_id;
                subject = user_created;
                payload = create_event made_at user;
              })
              made_at
            ∷ []

  IsCreated-after :
      {fields : CreateUserData} {create_event : ℕ → UserRecord → UserCreatedEvent}
      {user : UserRecord} (w w₁ v v' : World)
      → IsUntouched w w₁
      → IsUntouched v v'
      → IsCreated fields create_event w₁ user v
      → IsCreated fields create_event w user v'
  IsCreated-after {fields} w w₁ v v' (u, e) (u', e') c = record {
    made_at = c.made_at;
    email = c.email;
    password_hash = c.password_hash;
    name = c.name;
    was_free = ap (count (is_email fields.email)) (sym u) ∙ c.was_free;
    users = u' ∙ append_to _ c.users u;
    events = e' ∙ append_to _ c.events e;
  }

  pub create_user-Ensures :
      (fields : CreateUserData) (create_event : ℕ → UserRecord → UserCreatedEvent) (w : World)
      → Ensures
          (λ user w'. IsCreated fields create_event w user w')
          (λ e w'. IsUntouched w w')
          (create_user db fields create_event w)
  unfolding create_user
  create_user-Ensures fields create_event w =
      Ensures-weaken
        (λ user w' (v, ran, users, events).
          IsCreated-after w w v w' (refl, refl) (users, events)
            (of_ok {P = λ user v. IsCreated fields create_event w user v} (
              subst (Ensures _ _) ran (
                and_then-Ensures {Q' = λ e _. Unit} _ (db.create_user_law fields w)
                  (λ user w₁ (email, hash, name, free, added, same).
                    and_then-Ensures _
                      (db.create_event_law
                        (record {
                          id = (create_event (db.clock w₁) user).event_id;
                          subject = user_created;
                          payload = create_event (db.clock w₁) user;
                        })
                        w₁)
                      (λ _ w₂ (users₂, events₂). returns (record {
                        made_at = db.clock w₁;
                        email = email;
                        password_hash = hash;
                        name = name;
                        was_free = free;
                        users = users₂ ∙ added;
                        events = append_to _ events₂ same;
                      }))
                      (λ e w₂ h. tt))
                  (λ e w₁ h. tt)))))
        (λ e w' same. same) (db.transaction_law _ w)

module _ {World : Type 0} {db : UserDatabase World} (passwords : PasswordHasher db)
    (to_iso_string : ℕ → String) (input : CreateUserDto) (event_id : String) where
  -- The answer describes a user that was created with the email, the name and the hash of the
  -- password, together with its event.
  pub record IsRegistered (w : World) (response : UserResponseDto) (w' : World) : Type 0 where
    pub user : UserRecord
    pub hash : String
    pub hashed_in : World
    pub hashed : (v : World) × (passwords.hash input.password hashed_in ≡ (ok hash, v))
    pub created :
        IsCreated db
          (create_user_data input hash)
          (to_user_created_event to_iso_string event_id)
          w
          user
          w'
    pub answered : response ≡ to_user_response to_iso_string user

  IsRegistered-after :
      (w w₁ w' : World) (response : UserResponseDto)
      → IsUntouched db w w₁
      → IsRegistered w₁ response w'
      → IsRegistered w response w'
  IsRegistered-after w w₁ w' response same r = record {
    user = r.user;
    hash = r.hash;
    hashed_in = r.hashed_in;
    hashed = r.hashed;
    created = IsCreated-after db w w₁ w' w' same (refl, refl) r.created;
    answered = r.answered;
  }

  register-Ensures :
      (w : World)
      → Ensures
          (λ response w'. IsRegistered w response w')
          (λ e w'. IsUntouched db w w')
          (register passwords to_iso_string input event_id w)
  unfolding register
  register-Ensures w =
      and_then-Ensures _
        (or_else-Ensures
          {R = λ h w₁.
            ((v : World) × (passwords.hash input.password w ≡ (ok h, v))) × IsUntouched db w w₁}
          _ (Ensures-known (passwords.hash_law input.password w))
          (λ h w₁ (ran, same). ((w₁, ran), same)) (λ e w₁ (ran, same). throws same))
        (λ h w₁ (ran, same).
          and_then-Ensures {Q = λ e w₂. IsUntouched db w₁ w₂} _
            (or_else-Ensures _
              (create_user-Ensures db (create_user_data input h)
                (to_user_created_event to_iso_string event_id) w₁)
              (λ user w₂ c. c)
              (λ e w₂ untouched. elim (Bool-cases (is_unique_email_error e)) [
                | inl unique ↦ rw unique (throws untouched)
                | inr other ↦ rw other (throws untouched)
              ]))
            (λ user w₂ c. returns (
              IsRegistered-after w w₁ w₂ _ same (record {
                user = user;
                hash = h;
                hashed_in = w;
                hashed = ran;
                created = c;
                answered = refl;
              })))
            (λ e w₂ untouched. IsUntouched-trans db w w₁ w₂ same untouched))
        (λ e w₁ same. same)

  -- `signUp` stores a user and its event together, or nothing. If it returns, the email was free,
  -- exactly one user was added, with the email and the name given and a hash of the password, and
  -- exactly one event, pending and due at once, whose payload describes that user; the answer
  -- describes it too. If it throws, neither table has changed.
  pub sign_up-registers :
      (w : World)
      → Ensures
          (λ response w'. IsRegistered w response w')
          (λ e w'. IsUntouched db w w')
          (sign_up passwords to_iso_string input event_id w)
  unfolding sign_up
  sign_up-registers w =
      and_then-Ensures _
        (or_else-Ensures {R = λ found w₁. IsUntouched db w w₁} _
          (db.find_by_email_law input.email w)
          (λ found w₁ (searched, users, events). (users, events)) (λ e w₁ same. throws same))
        (λ found w₁ same. elim (Bool-cases (is_null found)) [
          | inl free ↦ rw free (
              Ensures-weaken (λ r w' h. IsRegistered-after w w₁ w' r same h)
                (λ e w' untouched. IsUntouched-trans db w w₁ w' same untouched)
                (register-Ensures w₁))
          | inr taken ↦ rw taken (throws same)
        ])
        (λ e w₁ same. same)
