-- ===== src/Rpc/Answering.antt =====
-- A handler answers each request once.
use trams_assignment.Base.{
  ◌≡◌, refl, ap, ◌∙◌, Option, List, ◌∷◌, String, M, Result, ok, err, Ensures, and_then-Ensures,
  or_else-Ensures, Ensures-weaken, Ensures-known,
}
use trams_assignment.Users.{ServiceFault}
use trams_assignment.Rpc.{
  RpcResponse, success, failure, invalid_failure, to_rpc_failure, answer, handle_request,
}

-- The replies that were sent, the latest first; `wrap` makes one of a response. One that throws was not sent, and neither the
-- operation nor the check of its output sends any.
pub record IsAnswering {World Input Output Reply : Type 0}
    (operation : Input → M World ServiceFault Output)
    (check_output : Output → M World ServiceFault Output)
    (respond : RpcResponse Output → M World ServiceFault (Unit {0}))
    (wrap : RpcResponse Output → Reply) (replies : World → List Reply) : Type 0 where
  pub respond_law :
      (r : RpcResponse Output) (w : World)
      → Ensures
          (λ _ w'. replies w' ≡ wrap r ∷ replies w)
          (λ e w'. replies w' ≡ replies w)
          (respond r w)
  pub operation_law :
      (input : Input) (w : World)
      → Ensures
          (λ _ w'. replies w' ≡ replies w)
          (λ e w'. replies w' ≡ replies w)
          (operation input w)
  pub check_law :
      (output : Output) (w : World)
      → Ensures
          (λ _ w'. replies w' ≡ replies w)
          (λ e w'. replies w' ≡ replies w)
          (check_output output w)

module _ {World Json Input Output Reply : Type 0} (safe_parse : Option Json → Result String Input)
    (operation : Input → M World ServiceFault Output)
    (check_output : Output → M World ServiceFault Output)
    (respond : RpcResponse Output → M World ServiceFault (Unit {0}))
    (wrap : RpcResponse Output → Reply) (replies : World → List Reply)
    (laws : IsAnswering operation check_output respond wrap replies) (value : Option Json) where
  -- Why a reply is what it is: the request is refused by its schema; or the operation has returned
  -- the output, up to the check; or something has thrown.
  pub data IsReason : RpcResponse Output → Type 0 where
    malformed :
        {issues : String}
        → safe_parse value ≡ err issues
        → IsReason (failure (invalid_failure issues))
    performed :
        {input : Input} {output checked : Output} {w w₁ w₂ : World}
        → safe_parse value ≡ ok input
        → operation input w ≡ (ok output, w₁)
        → check_output output w₁ ≡ (ok checked, w₂)
        → IsReason (success checked)
    failed :
        {input : Input} (e : ServiceFault)
        → safe_parse value ≡ ok input
        → IsReason (failure (to_rpc_failure e))

  -- One reply was sent, for a reason.
  abbrev pub IsAnswered : World → World → Type 0
  IsAnswered w w' = (r : RpcResponse Output) × IsReason r × (replies w' ≡ wrap r ∷ replies w)

  answer-Ensures :
      (parsed : Result String Input) (w : World)
      → safe_parse value ≡ parsed
      → Ensures
          (λ _ w'. IsAnswered w w')
          (λ e w'. replies w' ≡ replies w)
          (answer safe_parse operation check_output respond parsed w)
  unfolding answer
  answer-Ensures (err issues) w at =
      Ensures-weaken (λ _ w' r. (failure (invalid_failure issues), malformed at, r))
        (λ e w' same. same) (laws.respond_law _ w)
  answer-Ensures (ok input) w at =
      or_else-Ensures {P = λ _ w'. IsAnswered w w'} {Q = λ e w₁. replies w₁ ≡ replies w} _
        (and_then-Ensures {P = λ checked w₂. IsReason (success checked) × (replies w₂ ≡ replies w)}
          {Q = λ e w₂. replies w₂ ≡ replies w} _
          (and_then-Ensures _ (Ensures-known (laws.operation_law input w))
            (λ output w₁ (ran, same).
              Ensures-weaken (λ checked w₂ (checks, same₂). (performed at ran checks, same₂ ∙ same))
                (λ e w₂ (checks, same₂). same₂ ∙ same) (Ensures-known (laws.check_law output w₁)))
            (λ e w₁ (ran, same). same))
          (λ checked w₂ (reason, same).
            Ensures-weaken
              (λ _ w' r. (success checked, reason, r ∙ ap (λ rs. wrap (success checked) ∷ rs) same))
              (λ e w' silent. silent ∙ same) (laws.respond_law (success checked) w₂))
          (λ e w₂ same. same))
        (λ _ w' p. p)
        (λ e w₁ same.
          Ensures-weaken
            (λ _ w' r. (
              failure (to_rpc_failure e),
              failed e at,
              r ∙ ap (λ rs. wrap (failure (to_rpc_failure e)) ∷ rs) same,
            ))
            (λ e' w' silent. silent ∙ same) (laws.respond_law (failure (to_rpc_failure e)) w₁))

  -- A handler that returns has sent exactly one reply: that the request does not match its
  -- contract, if its schema refuses it; the output of the operation, if that has returned and the
  -- output passes its check; or the failure that stands for what was thrown. If the handler throws,
  -- it has sent none.
  pub handle_request-answers :
      (w : World)
      → Ensures
          (λ _ w'. IsAnswered w w')
          (λ e w'. replies w' ≡ replies w)
          (handle_request safe_parse operation check_output respond value w)
  unfolding handle_request
  handle_request-answers w = answer-Ensures (safe_parse value) w refl
