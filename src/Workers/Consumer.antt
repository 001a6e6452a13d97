-- ===== src/Workers/Consumer.antt =====
-- workers_queue_consume.go: the loop over the deliveries of the queue. Dialling and declaring the queue
-- are left out.
pub mod Laws
use releasea_worker.Prelude.{
  ℕ, String, Bool, true, false, Option, none, some, List, [], ◌∷◌, if◌then◌else◌, ◌==◌, ◌⧺◌,
}
use releasea_worker.Models.Failure.{Error, Result, new_error}
use releasea_worker.Models.Operation.{Config}
use releasea_worker.Workers.Process.{Env, Session, process_operation_by_id}
use releasea_worker.Workers.PoolControl.{PoolControl, blocks}

-- `msg.Ack(false)`, `msg.Nack(false, true)` and `msg.Nack(false, false)`.
pub data Disposition : Type 0 where
  ack requeue reject : Disposition

pub record Delivery : Type 0 where
  pub body : String
  pub operation_id : Option String  -- `none` where the body does not decode
  pub control : Result PoolControl  -- what the cache answers
  pub interrupted : Option Error  -- the error of the two seconds' wait, if the pool is blocked

-- What the `select` receives next.
pub data Event : Type 0 where
  done closed : Event
  delivered : Delivery → Event

abbrev pub channel_closed : Error
channel_closed = new_error "rabbitmq channel closed"

unfoldable pub invalid_job : String → Error
invalid_job body = new_error ("invalid job payload: " ⧺ body)

unfoldable pub process_job :
    Env → Config → String → Option String → Session → Option Error × Session
unfolding invalid_job
process_job env cfg body none s = (some (invalid_job body), s)
process_job env cfg body (some id) s =
    if id == "" then (some (invalid_job body), s) else process_operation_by_id env cfg id s

unfoldable pub dispose : Option Error → Disposition
dispose none = ack
dispose (some err) = if err.not_compatible then requeue else reject

-- What the loop returns: its error, the dispositions of the deliveries in order, and the session.
pub record Consumed : Type 0 where
  pub failure : Option Error
  pub dispositions : List Disposition
  pub session : Session

abbrev settle : Disposition → Consumed → Consumed
settle d c = record c { dispositions = d ∷ c.dispositions }

abbrev stop : Option Error → Session → Consumed
stop failure s = record { failure = failure; dispositions = []; session = s }

-- After the message has been given back, the wait ends the loop or lets it go on with `rest`.
abbrev after_requeue : Option Error → Session → Consumed → Consumed
after_requeue none s rest = rest
after_requeue (some err) s rest = stop (some err) s

unfoldable pub consume : Env → Config → List Event → Session → Consumed
consume env cfg [] s = stop none s
consume env cfg (done ∷ events) s = stop none s
consume env cfg (closed ∷ events) s = stop (some channel_closed) s
consume env cfg (delivered d ∷ events) s =
    let skipped = consume env cfg events s in
    let (failure, s') = process_job env cfg d.body d.operation_id s in
    let handled = consume env cfg events s' in
    if blocks d.control
    then settle requeue (after_requeue d.interrupted s skipped)
    else settle (dispose failure) handled
