-- ===== src/Maintenance/Timing.antt =====
-- maintenance_loop_timing.go: how long one cycle of a monitor may take. Durations are nanoseconds; an
-- interval that is not positive counts as zero.
use releasea_worker.Prelude.{ℕ, ◌-◌, ◌*◌, ◌/◌, ◌≤◌, ltb, ◌=ℕ◌, if◌then◌else◌, arith}
use releasea_worker.Prelude.Int.{ℤ, pos, pos_part, ◌≤ℤ◌, ltb_ℤ}

abbrev pub min_maintenance_cycle_timeout : ℕ
min_maintenance_cycle_timeout = 5000000000

abbrev pub max_maintenance_cycle_timeout : ℕ
max_maintenance_cycle_timeout = 120000000000

unfoldable pub clamp_maintenance_cycle_timeout : ℕ → ℕ
clamp_maintenance_cycle_timeout value =
    if ltb value min_maintenance_cycle_timeout
    then min_maintenance_cycle_timeout
    else if ltb max_maintenance_cycle_timeout value
    then max_maintenance_cycle_timeout
    else value

-- `override_seconds` is the value of the environment variable.
unfoldable pub resolve_maintenance_cycle_timeout : ℤ → ℕ → ℕ
resolve_maintenance_cycle_timeout override_seconds interval =
    if ltb_ℤ (pos 0) override_seconds
    then clamp_maintenance_cycle_timeout (pos_part override_seconds * 1000000000)
    else if interval =ℕ 0
    then 30000000000
    else clamp_maintenance_cycle_timeout (interval - interval / 4)

-- A cycle may take between five seconds and two minutes. Without an override, and with an interval of
-- at least five seconds, it may take no longer than the interval.
resolve_maintenance_cycle_timeout_bounds :
    (override_seconds : ℤ) (interval : ℕ)
    → let timeout = resolve_maintenance_cycle_timeout override_seconds interval in
      (min_maintenance_cycle_timeout ≤ timeout)
      × (timeout ≤ max_maintenance_cycle_timeout)
      × (override_seconds ≤ℤ pos 0 → min_maintenance_cycle_timeout ≤ interval → timeout ≤ interval)
unfolding resolve_maintenance_cycle_timeout clamp_maintenance_cycle_timeout
resolve_maintenance_cycle_timeout_bounds override_seconds interval = ground arith
