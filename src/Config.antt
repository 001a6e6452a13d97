-- ===== src/Config.antt =====
-- internal/platform/config/config_load.go: the corrections of `Load`, and the heartbeat's interval of
-- workers_operation_process.go that rests on one of them. Durations are nanoseconds.
use releasea_worker.Prelude.{ℕ, ◌*◌, ◌/◌, ◌≤◌, ltb, if◌then◌else◌, arith}
use releasea_worker.Prelude.Int.{ℤ, pos, pos_part, at_least, at_most, ◌≤ℤ◌}

-- The three corrected counts, from the values of their environment variables.
unfoldable pub queue_prefetch : ℤ → ℤ
queue_prefetch v = at_least (pos 1) v

unfoldable pub operation_claim_lease_ttl : ℤ → ℤ
operation_claim_lease_ttl v = at_most (pos 600) (at_least (pos 30) v)

unfoldable pub token_refresh_skew : ℤ → ℤ
token_refresh_skew v = at_most (pos 900) (at_least (pos 30) v)

-- `claimHeartbeatInterval`; a lease that is not positive gives less than ten seconds, so its sign is
-- of no matter.
unfoldable pub claim_heartbeat_interval : ℤ → ℕ
claim_heartbeat_interval ttl =
    let interval = pos_part ttl * 1000000000 / 3 in
    if ltb interval 10000000000 then 10000000000 else interval

-- Whatever the environment says, the lease of a claim lies between 30 and 600 seconds, three heartbeat
-- intervals fit into one lease, and an interval is no shorter than ten seconds.
pub claim_heartbeat_interval_bounds :
    (v : ℤ)
    → (claim_heartbeat_interval (operation_claim_lease_ttl v) * 3
        ≤ pos_part (operation_claim_lease_ttl v) * 1000000000)
      × (10000000000 ≤ claim_heartbeat_interval (operation_claim_lease_ttl v))
      × (pos 30 ≤ℤ operation_claim_lease_ttl v)
      × (operation_claim_lease_ttl v ≤ℤ pos 600)
unfolding claim_heartbeat_interval operation_claim_lease_ttl at_least at_most
claim_heartbeat_interval_bounds v = ground arith
