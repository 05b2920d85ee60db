-- ===== src/Messaging/Consumer/Starting.antt =====
-- `start` of consumer.ts: a consumer that is configured, bound and pulls messages.
use trams_assignment.Base.{
  ℕ, ◌≡◌, refl, Bool, Option, none, some, String, is_null, M, Result, ret, ◌>>=◌, Ensures, returns,
  and_then-Ensures, Ensures-result,
}
use trams_assignment.Database.{Fault}
use trams_assignment.Messaging.Consumer.{
  DurableConsumerConfig, ResolvedConsumerConfig, resolve_config,
}
use trams_assignment.Messaging.Consumer.Config.{IsResolved, resolve_config-resolves}
use trams_assignment.Messaging.Consumer.Binding.{
  ConsumerManager, ensure_durable_consumer, IsBound, ensure_durable_consumer-IsBound,
}

-- `outcome` is that of `processMessages`, once it has ended.
pub record StartedDurableConsumer (Messages : Type 0) : Type 0 where
  pub messages : Messages
  pub durable_name : String
  pub outcome : Option (Result Fault (Unit {0}))

-- `isRunning()`
abbrev pub is_running : {Messages : Type 0} → StartedDurableConsumer Messages → Bool
is_running started = is_null started.outcome

-- `isRunning = false`, whether `processMessages` has returned or thrown.
abbrev pub stopped :
    {Messages : Type 0}
    → Result Fault (Unit {0})
    → StartedDurableConsumer Messages
    → StartedDurableConsumer Messages
stopped outcome started = record started { outcome = some outcome }

module _ {Net Handle Messages Bytes Event Outside : Type 0} (manager : ConsumerManager Net Handle)
    (consume : Handle → ℕ → M Net Fault Messages)
    (config : DurableConsumerConfig Bytes Event Outside) where
  unfoldable pub start : M Net Fault (StartedDurableConsumer Messages)
  unfolding resolve_config ensure_durable_consumer
  start = do
    resolved ← resolve_config config
    handle ← ensure_durable_consumer manager resolved
    messages ← consume handle resolved.max_ack_pending
    ret (record { messages = messages; durable_name = resolved.durable_name; outcome = none })

  -- The consumer pulls with a configuration that was accepted, from a durable that it may be bound
  -- to, at most `maxAckPending` messages at a time.
  pub record IsStarted (n : Net) (started : StartedDurableConsumer Messages) (n' : Net)
      : Type 0 where
    pub resolved : ResolvedConsumerConfig Bytes Event Outside
    pub handle : Handle
    pub before : Net
    pub accepted : IsResolved resolved
    pub bound : IsBound manager resolved n
    pub pulls : consume handle resolved.max_ack_pending before ≡ (Result.ok started.messages, n')
    pub named : started.durable_name ≡ resolved.durable_name

  -- `start` returns only a consumer whose configuration was accepted and which is bound to its
  -- durable and pulls its messages.
  pub start-IsStarted :
      (n : Net) → Ensures (λ started n'. IsStarted n started n') (λ e n'. Unit {0}) (start n)
  unfolding start
  start-IsStarted n =
      and_then-Ensures _ (resolve_config-resolves config n)
        (λ resolved n₁ (accepted, same). rw same (
          and_then-Ensures _ (ensure_durable_consumer-IsBound manager resolved n)
            (λ handle n₂ bound.
              and_then-Ensures _ (Ensures-result (consume handle resolved.max_ack_pending n₂))
                (λ messages n₃ pulled. returns (record {
                  resolved = resolved;
                  handle = handle;
                  before = n₂;
                  accepted = accepted;
                  bound = bound;
                  pulls = pulled;
                  named = refl;
                }))
                (λ e n₃ _. tt))
            (λ e n₂ _. tt)))
        (λ e n₁ _. tt)
