-- ===== src/Rpc/Serving.antt =====
-- How the user service answers the messages on its subjects.
use trams_assignment.Base.{
  ◌≡◌, refl, ◌⊎◌, inl, inr, false, Bool-cases, Option, List, [], ◌∷◌, String, str_eq, eq_iff, subst,
  All, M, Result, ok, ret, Ensures, returns, Ensures-weaken,
}
use trams_assignment.Contracts.{
  user_rpc_create, user_rpc_get_by_id, user_rpc_update, user_rpc_authenticate, user_rpc_health,
}
use trams_assignment.Users.{
  CreateUserDto, LoginDto, UpdateUserDto, UserResponseDto, AuthenticatedUser, ServiceFault,
}
use trams_assignment.Rpc.Answering.{IsAnswering, IsAnswered, handle_request-answers}
use trams_assignment.Rpc.Routes.{
  UserRpcOperations, Schemas, Reply, user_reply, login_reply, health_reply, Handler, handle_health,
  handle_sign_up, handle_login, handle_get_user, handle_update_user, update_of,
  register_user_rpc_routes, deliver,
}

module _ {World Json : Type 0} (schemas : Schemas World Json) (users : UserRpcOperations World)
    (respond : Reply → M World ServiceFault (Unit {0})) where
  -- The replies that were sent, the latest first; nothing but `respond` sends one.
  pub record IsReplying (replies : World → List Reply) : Type 0 where
    pub respond_law :
        (r : Reply) (w : World)
        → Ensures
            (λ _ w'. replies w' ≡ r ∷ replies w)
            (λ e w'. replies w' ≡ replies w)
            (respond r w)
    pub sign_up_law :
        (input : CreateUserDto) (w : World)
        → Ensures
            (λ _ w'. replies w' ≡ replies w)
            (λ e w'. replies w' ≡ replies w)
            (users.sign_up input w)
    pub login_law :
        (input : LoginDto) (w : World)
        → Ensures
            (λ _ w'. replies w' ≡ replies w)
            (λ e w'. replies w' ≡ replies w)
            (users.login input w)
    pub get_user_law :
        (id : String) (w : World)
        → Ensures
            (λ _ w'. replies w' ≡ replies w)
            (λ e w'. replies w' ≡ replies w)
            (users.get_user id w)
    pub update_user_law :
        (id : String) (input : UpdateUserDto) (w : World)
        → Ensures
            (λ _ w'. replies w' ≡ replies w)
            (λ e w'. replies w' ≡ replies w)
            (users.update_user id input w)
    pub check_health_law :
        (w : World)
        → Ensures
            (λ _ w'. replies w' ≡ replies w)
            (λ e w'. replies w' ≡ replies w)
            (users.check_health w)
    pub user_response_law :
        (output : UserResponseDto) (w : World)
        → Ensures
            (λ _ w'. replies w' ≡ replies w)
            (λ e w'. replies w' ≡ replies w)
            (schemas.user_response output w)
    pub authenticated_user_law :
        (output : AuthenticatedUser) (w : World)
        → Ensures
            (λ _ w'. replies w' ≡ replies w)
            (λ e w'. replies w' ≡ replies w)
            (schemas.authenticated_user output w)

  module _ (replies : World → List Reply) (laws : IsReplying replies) where
    pub health_laws :
        IsAnswering {Input = Unit {0}}
          (λ _. users.check_health)
          ret
          (λ r. respond (health_reply r))
          health_reply
          replies
    health_laws = record {
      respond_law = λ r w. laws.respond_law (health_reply r) w;
      operation_law = λ input w. laws.check_health_law w;
      check_law = λ output w. returns refl;
    }

    pub sign_up_laws :
        IsAnswering users.sign_up schemas.user_response
          (λ r. respond (user_reply r))
          user_reply
          replies
    sign_up_laws = record {
      respond_law = λ r w. laws.respond_law (user_reply r) w;
      operation_law = laws.sign_up_law;
      check_law = laws.user_response_law;
    }

    pub login_laws :
        IsAnswering users.login schemas.authenticated_user
          (λ r. respond (login_reply r))
          login_reply
          replies
    login_laws = record {
      respond_law = λ r w. laws.respond_law (login_reply r) w;
      operation_law = laws.login_law;
      check_law = laws.authenticated_user_law;
    }

    pub get_user_laws :
        IsAnswering users.get_user schemas.user_response
          (λ r. respond (user_reply r))
          user_reply
          replies
    get_user_laws = record {
      respond_law = λ r w. laws.respond_law (user_reply r) w;
      operation_law = laws.get_user_law;
      check_law = laws.user_response_law;
    }

    pub update_user_laws :
        IsAnswering
          (update_of schemas users respond)
          schemas.user_response
          (λ r. respond (user_reply r))
          user_reply
          replies
    update_user_laws = record {
      respond_law = λ r w. laws.respond_law (user_reply r) w;
      operation_law = λ input w. laws.update_user_law input.id input.update w;
      check_law = laws.user_response_law;
    }

    -- What the service has done with a message on a subject: its handler has answered it, for a
    -- reason; or there is no such route.
    pub data IsServed (value : Option Json) (w w' : World) : String → Type 0 where
      health :
          IsAnswered
            (λ _. ok tt)
            (λ _. users.check_health)
            ret
            (λ r. respond (health_reply r))
            health_reply
            replies
            health_laws
            value
            w
            w'
          → IsServed value w w' user_rpc_health
      sign_up :
          IsAnswered schemas.create_user users.sign_up schemas.user_response
            (λ r. respond (user_reply r))
            user_reply
            replies
            sign_up_laws
            value
            w
            w'
          → IsServed value w w' user_rpc_create
      login :
          IsAnswered schemas.login users.login schemas.authenticated_user
            (λ r. respond (login_reply r))
            login_reply
            replies
            login_laws
            value
            w
            w'
          → IsServed value w w' user_rpc_authenticate
      get_user :
          IsAnswered schemas.get_user users.get_user schemas.user_response
            (λ r. respond (user_reply r))
            user_reply
            replies
            get_user_laws
            value
            w
            w'
          → IsServed value w w' user_rpc_get_by_id
      update_user :
          IsAnswered schemas.update_user
            (update_of schemas users respond)
            schemas.user_response
            (λ r. respond (user_reply r))
            user_reply
            replies
            update_user_laws
            value
            w
            w'
          → IsServed value w w' user_rpc_update
      unrouted :
          {subject : String}
          → All
              (λ route. str_eq route.0 subject ≡ false)
              (register_user_rpc_routes schemas users respond)
          → w' ≡ w
          → IsServed value w w' subject

    served :
        {w : World} {x : Result ServiceFault (Unit {0}) × World} {P : World → Type 0}
        {Q : World → Type 0}
        → ((w' : World) → P w' → Q w')
        → Ensures (λ _ w'. P w') (λ e w'. replies w' ≡ replies w) x
        → Ensures (λ _ w'. Q w') (λ e w'. replies w' ≡ replies w) x
    served f h = Ensures-weaken (λ _ w' p. f w' p) (λ e w' same. same) h

    -- A message is given to the first route of its subject.
    deliver_by :
        (routes : List (String × Handler schemas users respond)) (subject : String)
        (value : Option Json) (w : World)
        → All
            (λ route.
              Ensures
                (λ _ w'. IsServed value w w' route.0)
                (λ e w'. replies w' ≡ replies w)
                (route.1 value w))
            routes
        → Ensures
            (λ _ w'.
              IsServed value w w' subject
              ⊎ (All (λ route. str_eq route.0 subject ≡ false) routes × (w' ≡ w)))
            (λ e w'. replies w' ≡ replies w)
            (deliver schemas users respond routes subject value w)
    deliver_by [] subject value w each = returns (inr (tt, refl))
    deliver_by (route ∷ routes) subject value w (one, each) =
        elim (Bool-cases (str_eq route.0 subject)) [
          | inl is ↦ rw is (
              served {w = w}
                (λ w' p. inl (subst (IsServed value w w') ((eq_iff route.0 subject).0 is) p)) one)
          | inr other ↦ rw other (
              served {w = w} (λ w' p. elim p [ inl q ↦ inl q | inr q ↦ inr ((refl, q.0), q.1) ])
                (deliver_by routes subject value w each))
        ]

    -- Each subject of the user service has its own operation: a message on it is answered exactly
    -- once, by the handler of that operation and in its format, for one of the reasons of a handler;
    -- if the handler throws, by no reply. On any other subject the service does nothing.
    pub deliver-IsServed :
        (subject : String) (value : Option Json) (w : World)
        → Ensures
            (λ _ w'. IsServed value w w' subject)
            (λ e w'. replies w' ≡ replies w)
            (deliver schemas users respond
              (register_user_rpc_routes schemas users respond)
              subject
              value
              w)
    unfolding handle_health handle_sign_up handle_login handle_get_user handle_update_user
    deliver-IsServed subject value w =
        served {w = w} (λ w' p. elim p [ inl q ↦ q | inr q ↦ unrouted q.0 q.1 ])
          (deliver_by (register_user_rpc_routes schemas users respond) subject value w (
            (
              served {w = w} (λ w' p. health p)
                  (handle_request-answers _ _ _ _ _ replies health_laws value w),
              (
                served {w = w} (λ w' p. sign_up p)
                    (handle_request-answers _ _ _ _ _ replies sign_up_laws value w),
                (
                  served {w = w} (λ w' p. login p)
                      (handle_request-answers _ _ _ _ _ replies login_laws value w),
                  (
                    served {w = w} (λ w' p. get_user p)
                        (handle_request-answers _ _ _ _ _ replies get_user_laws value w),
                    (
                      served {w = w} (λ w' p. update_user p)
                          (handle_request-answers _ _ _ _ _ replies update_user_laws value w),
                      tt,
                    ),
                  ),
                ),
              ),
            )))
