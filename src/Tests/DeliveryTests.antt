-- ===== src/Tests/DeliveryTests.antt =====
-- The notification service on a table in memory, with a channel that lists what it has sent.
use trams_assignment.Base.{◌≡◌, refl, none, List, [], ◌∷◌, String, ok, of_ok, arith}
use trams_assignment.Database.Rows.{IsKeyed}
use trams_assignment.Database.Memory.{Memory, memory_table}
use trams_assignment.Delivery.{
  NotificationDelivery, delivery_id, NotificationDeliveryInput, claimed, in_progress, new_delivery,
  set_sent, claim, mark_sent, NotificationChannel, ServiceState, delivery_repository,
  handle_user_created,
}
use trams_assignment.Delivery.Claims.{IsAnswer, claim-IsAnswer}
use trams_assignment.Delivery.Exclusion.{Answers, claim_excluded}
use trams_assignment.Delivery.Handling.{
  request, IsDelivered, handle_user_created-delivers, handle_user_created-redelivered,
}
use trams_assignment.Tests.OutboxTests.{sample_event}

abbrev ask : NotificationDeliveryInput
ask = request sample_event 60000

-- The row that an earlier claim has made.
abbrev row : NotificationDelivery
row = new_delivery ask "t1" 900

abbrev deliveries : List NotificationDelivery → Memory NotificationDelivery
deliveries rs = record { rows = rs; clock = 1000; faults = []; log = [] }

one-IsKeyed : IsKeyed delivery_id (row ∷ [])
one-IsKeyed k = ground arith

sent-IsKeyed : IsKeyed delivery_id (set_sent 950 row ∷ [])
sent-IsKeyed k = ground arith

pub empty-IsKeyed : IsKeyed delivery_id []
empty-IsKeyed k = omega arith

claim-IsAnswer_example : IsAnswer ask "t2" 1000 [] (claimed "t2") (new_delivery ask "t2" 1000 ∷ [])
unfolding claim
claim-IsAnswer_example =
    of_ok (claim-IsAnswer (memory_table delivery_id) ask "t2" (deliveries []) empty-IsKeyed)

abbrev later : Memory NotificationDelivery
later = record (deliveries (new_delivery ask "t2" 1000 ∷ [])) { clock = 2000 }

later-IsKeyed : IsKeyed delivery_id (new_delivery ask "t2" 1000 ∷ [])
later-IsKeyed k = ground arith

-- The claim of an event with no row is granted, and the next one a second later is not.
claim_excluded_example : Answers (memory_table delivery_id) ask in_progress "t3" later
unfolding claim
claim_excluded_example =
    (claim_excluded (memory_table delivery_id) ask "t2" (deliveries []) empty-IsKeyed).2 "t3" _
      later refl refl later-IsKeyed (omega arith)

abbrev pub mailer : NotificationChannel (List String)
mailer = record { send_welcome = λ notification key log. (ok tt, key ∷ log) }

abbrev pub service :
    List NotificationDelivery → ServiceState (Memory NotificationDelivery) (List String)
service rs = record { db = deliveries rs; outside = [] }

handle_user_created-delivers_example :
    IsDelivered
      (memory_table delivery_id)
      mailer
      none
      sample_event
      (service [])
      (handle_user_created
        (delivery_repository (memory_table delivery_id))
        mailer
        none
        sample_event
        "t2"
        (service [])).1
unfolding handle_user_created claim mark_sent
handle_user_created-delivers_example = of_ok (
    handle_user_created-delivers (memory_table delivery_id) mailer none sample_event "t2"
      (service []) empty-IsKeyed)

handle_user_created-redelivered_example :
    let after =
      (handle_user_created
        (delivery_repository (memory_table delivery_id))
        mailer
        none
        sample_event
        "t2"
        (service (set_sent 950 row ∷ []))).1 in
    (after.db.rows ≡ set_sent 950 row ∷ []) × (after.outside ≡ [])
unfolding handle_user_created claim mark_sent
handle_user_created-redelivered_example = of_ok (
    handle_user_created-redelivered (memory_table delivery_id) mailer none sample_event "t2"
      (service (set_sent 950 row ∷ [])) sent-IsKeyed (omega arith))

-- The event is sent once, and its redelivery sends nothing.
redelivery_run :
    let first =
      (handle_user_created
        (delivery_repository (memory_table delivery_id))
        mailer
        none
        sample_event
        "t1"
        (service [])).1 in
    let second =
      (handle_user_created
        (delivery_repository (memory_table delivery_id))
        mailer
        none
        sample_event
        "t2"
        first).1 in
    (first.outside ≡ "e1" ∷ []) × (second.outside ≡ "e1" ∷ [])
unfolding handle_user_created claim mark_sent
redelivery_run = (refl, refl)
