-- ===== src/Workers/Poller.antt =====
-- workers_queue_poll_operations.go: the fallback that fetches queued operations from the API.
use releasea_worker.Prelude.{ℕ, zero, suc, Option, none, some, List, [], ◌∷◌, if◌then◌else◌, ◌≡◌}
use releasea_worker.Prelude.Int.{ℤ, pos, leb_ℤ, pos_part}
use releasea_worker.Models.Failure.{Error, Result, ok, err}
use releasea_worker.Models.Operation.{OperationPayload, Config}
use releasea_worker.Workers.Process.{Env, Session, process_operation}
use releasea_worker.Workers.PoolControl.{PoolControl, blocks}

-- `limit` as `runPoller` corrects it.
unfoldable pub poll_limit : ℤ → ℕ
poll_limit limit = if leb_ℤ limit (pos 0) then 10 else pos_part limit

-- The loop over the fetched operations, by the rounds that `limit` leaves. An error is only logged.
unfoldable pub process_up_to : Env → Config → ℕ → List OperationPayload → Session → Session
process_up_to env cfg zero ops s = s
process_up_to env cfg (suc left) [] s = s
process_up_to env cfg (suc left) (op ∷ ops) s =
    process_up_to env cfg left ops (process_operation env cfg op s).1

abbrev drain :
    Env
    → Config
    → ℕ
    → Option Error
    → Result (List OperationPayload)
    → Session
    → Option Error × Session
drain env cfg limit (some e) fetched s = (some e, s)
drain env cfg limit none (err e) s = (some e, s)
drain env cfg limit none (ok ops) s = (none, process_up_to env cfg limit ops s)

-- `recovery` is the error of `RecoverStaleOperationClaims`, `fetched` what `FetchQueuedOperations`
-- returns.
unfoldable pub drain_queued_operations :
    Env
    → Config
    → ℕ
    → Result PoolControl
    → Option Error
    → Result (List OperationPayload)
    → Session
    → Option Error × Session
drain_queued_operations env cfg limit control recovery fetched s =
    if blocks control then (none, s) else drain env cfg limit recovery fetched s

-- The operations are processed one by one, in the order of the list, each from where the last one left
-- the worker.
abbrev pub RunInOrder : Env → Config → List OperationPayload → Session → Session → Type 0
RunInOrder env cfg [] s s' = s ≡ s'
RunInOrder env cfg (op ∷ ops) s s' = RunInOrder env cfg ops (process_operation env cfg op s).1 s'
