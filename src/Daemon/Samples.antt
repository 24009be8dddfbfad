-- ===== src/Daemon/Samples.antt =====
-- A controller through a start and an end, and a sink through three transactions.
use expensor.Prelude.{◌≤◌, String, ◌≡◌, ◌↔◌, refl, true, none, List, [], ◌∷◌, arith, length}
use expensor.Errors.{context_canceled}
use expensor.Daemon.Controller.{
  Controller, RunRequest, start, new_controller, enqueue, begin, ask, take, Reach, here, next,
}
use expensor.Daemon.OneRun.{one_run}
use expensor.Daemon.Sink.{Flush, Event, received, new_sink, write}
use expensor.Daemon.Delivery.{taken, IsDelivering, write-IsDelivering}

abbrev request : RunRequest
request = record { tenant_id = "t1"; reader = "gmail" }

abbrev asked : Controller
asked = (enqueue (start request) new_controller).0

abbrev started : Controller
started = begin (start request) (record asked { queue = [] })

asked_queue : asked.queue ≡ start request ∷ []
unfolding enqueue new_controller
asked_queue = refl

Reach-started : Reach new_controller started
unfolding enqueue new_controller
Reach-started = next (next here (ask (start request))) (take (start request) [] refl refl)

started_runs : started.running ≡ true
unfolding enqueue new_controller begin
started_runs = refl

one_run_example : (length started.live ≤ 1) × ((started.running ≡ true) ↔ (length started.live ≡ 1))
one_run_example = one_run Reach-started

abbrev fine : Flush
fine = record { write_fault = none; taken = none; context_error = context_canceled }

-- Message ids are the transactions themselves.
abbrev read_three : List (Event String)
read_three = received "a" fine ∷ received "b" fine ∷ received "" fine ∷ []

writes_pairs : (write {T = String} (λ t. t) 2 new_sink read_three).0.written ≡ "a" ∷ "b" ∷ []
unfolding write
writes_pairs = refl

write-IsDelivering_example :
    IsDelivering (λ t. t) 2 (taken (λ t. t) read_three) (write (λ t. t) 2 new_sink read_three)
write-IsDelivering_example = write-IsDelivering (λ t. t) 2 read_three (omega arith)
