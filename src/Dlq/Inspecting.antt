-- ===== src/Dlq/Inspecting.antt =====
-- `inspect` of scripts/user-events-dlq.ts: what it lists.
use trams_assignment.Base.{
  ℕ, zero, suc, ◌+◌, ◌-◌, ◌≤◌, ◌<◌, ◌≡◌, refl, sym, ap, ap₂, ◌∙◌, true, Bool-cases, inl, inr,
  Option, none, some, List, [], ◌∷◌, ◌++◌, str_eq, if◌then◌else◌, Ensures, returns, throws,
  and_then-Ensures, or_else-Ensures, Ensures-weaken, arith,
}
use mathlib.Core.List.{append-nil, append_assoc}
use trams_assignment.Contracts.{user_events_stream, user_events_dead_letter}
use trams_assignment.Dlq.{StoredMsg, Description, matches, View, Operator, is_message_not_found}
use trams_assignment.Dlq.Commands.{describe, inspect_one, inspect_from, inspect}

module _ {World Bytes Ack Json : Type 0} (operator : Operator World Bytes Ack Json) where
  -- The description of a dead letter, none of another message.
  abbrev pub description_of : Option (StoredMsg Bytes) → List Description
  description_of none = []
  description_of (some message) =
      if str_eq message.subject user_events_dead_letter then describe operator message ∷ [] else []

  -- The descriptions of the dead letters among the next sequence numbers, in their order.
  abbrev pub dead_letters : (ℕ → Option (StoredMsg Bytes)) → ℕ → ℕ → List Description
  dead_letters stored zero n = []
  dead_letters stored (suc left) n = description_of (stored n) ++ dead_letters stored left (n + 1)

  listed :
      (o : Option (StoredMsg Bytes)) (message : StoredMsg Bytes) (found : List Description)
      → o ≡ some message
      → (if str_eq message.subject user_events_dead_letter
          then found ++ describe operator message ∷ []
          else found)
        ≡ found ++ description_of o
  listed o message found there =
      rw there (elim (Bool-cases (str_eq message.subject user_events_dead_letter)) [
        | inl dead ↦ rw dead refl
        | inr other ↦ rw other (sym (append-nil found))
      ])

  inspect_one-Ensures :
      (n : ℕ) (found : List Description) (w : World)
      → Ensures
          (λ found' w'.
            (operator.view w' ≡ operator.view w)
            × (found' ≡ found ++ description_of ((operator.view w).stored n)))
          (λ e w'. operator.view w' ≡ operator.view w)
          (inspect_one operator n found w)
  unfolding inspect_one
  inspect_one-Ensures n found w =
      or_else-Ensures
        {Q = λ e w'.
          (operator.view w' ≡ operator.view w)
          × (is_message_not_found e ≡ true → (operator.view w).stored n ≡ none)}
        _
        (and_then-Ensures _ (operator.get_message_law user_events_stream n w)
          (λ message w₁ (same, there).
            returns (same, listed ((operator.view w).stored n) message found there))
          (λ e w₁ lost. lost))
        (λ found' w₁ p. p)
        (λ e w₁ (same, absent). elim (Bool-cases (is_message_not_found e)) [
          | inl missing ↦ rw missing (
              returns (
                same,
                sym (append-nil found) ∙ ap (λ o. found ++ description_of o) (sym (absent missing)),
              ))
          | inr other ↦ rw other (throws same)
        ])

  inspect_from-Ensures :
      (left n : ℕ) (found : List Description) (w : World)
      → Ensures
          (λ found' w'.
            (operator.view w' ≡ operator.view w)
            × (found' ≡ found ++ dead_letters (operator.view w).stored left n))
          (λ e w'. operator.view w' ≡ operator.view w)
          (inspect_from operator left n found w)
  unfolding inspect_from
  inspect_from-Ensures zero n found w = returns (refl, sym (append-nil found))
  inspect_from-Ensures (suc left) n found w =
      and_then-Ensures _ (inspect_one-Ensures n found w)
        (λ found₁ w₁ (same, is).
          Ensures-weaken
            (λ found₂ w₂ (same₂, is₂). (
              same₂ ∙ same,
              is₂
                  ∙ ap₂ (λ xs v. xs ++ dead_letters v.stored left (n + 1)) is same
                  ∙ append_assoc found (description_of ((operator.view w).stored n))
                      (dead_letters (operator.view w).stored left (n + 1)),
            ))
            (λ e w₂ same₂. same₂ ∙ same) (inspect_from-Ensures left (n + 1) found₁ w₁))
        (λ e w₁ same. same)

  -- What `inspect` writes: one list, of the dead letters with the sequence numbers from `first` on,
  -- and no message of the stream has another number.
  pub record IsInspected (w w' : World) : Type 0 where
    pub first : ℕ
    pub amount : ℕ
    pub spans :
        (n : ℕ) (m : StoredMsg Bytes)
        → (operator.view w).stored n ≡ some m
        → (first ≤ n) × (n < first + amount)
    pub writes : operator.view w' ≡ record (operator.view w) {
      written =
          matches (dead_letters (operator.view w).stored amount first) ∷ (operator.view w).written;
    }

  -- `inspect` that returns has written one list: the descriptions of all the stored messages whose
  -- subject is the dead-letter subject, in the order of their sequence numbers. It has published
  -- nothing. If it throws, it has written and published nothing.
  pub inspect-IsInspected :
      (w : World)
      → Ensures
          (λ _ w'. IsInspected w w')
          (λ e w'. operator.view w' ≡ operator.view w)
          (inspect operator w)
  unfolding inspect
  inspect-IsInspected w =
      and_then-Ensures _ (operator.jetstream_manager_law w)
        (λ _ w₁ opened.
          and_then-Ensures _ (operator.info_law user_events_stream user_events_dead_letter w₁)
            (λ state w₂ (same, spans).
              and_then-Ensures _
                (inspect_from-Ensures (state.last_seq + 1 - state.first_seq) state.first_seq [] w₂)
                (λ found w₃ (same₃, is).
                  let here : operator.view w₃ ≡ operator.view w = same₃ ∙ same ∙ opened in
                  returns (record {
                    first = state.first_seq;
                    amount = state.last_seq + 1 - state.first_seq;
                    spans = λ n m at.
                        let (low, high) = spans n m (ap (λ v. v.stored n) opened ∙ at) in
                        (low, omega arith);
                    writes =
                        operator.write_law (matches found) w₃
                        ∙ ap₂
                            (λ (v : View Bytes Ack) ds. record v {
                              written = matches ds ∷ v.written;
                            })
                            here
                            (is
                              ∙ ap
                                  (λ v.
                                    dead_letters v.stored (state.last_seq + 1 - state.first_seq)
                                      state.first_seq)
                                  (same ∙ opened));
                  }))
                (λ e w₃ same₃. same₃ ∙ same ∙ opened))
            (λ e w₂ same. same ∙ opened))
        (λ e w₁ opened. opened)
