-- ===== src/Workers/PoolControl.antt =====
-- workers_pool_control.go: the cached answer to "may workers of this pool claim operations?". Times are
-- nanoseconds of a monotonic clock.
pub mod Loads
use releasea_worker.Prelude.{ℕ, ◌-◌, ltb, String, Bool, true, false, ◌&&◌, ◌||◌, if◌then◌else◌}
use releasea_worker.Models.Failure.{Result, ok, err}

pub record PoolControl : Type 0 where
  pub id : String
  pub maintenance_enabled : Bool
  pub drain_enabled : Bool

pub record Cache : Type 0 where
  pub value : PoolControl
  pub loaded_at : ℕ
  pub has_value : Bool

abbrev pub pool_control_cache_ttl : ℕ
pool_control_cache_ttl = 5000000000

-- What `get` does with the answer to its request; `later` is the time of `time.Now()`.
unfoldable pub load : Cache → Result PoolControl → ℕ → Result PoolControl × Cache
load c (err e) later = if c.has_value then (ok c.value, c) else (err e, c)
load c (ok control) later =
    (ok control, record { value = control; loaded_at = later; has_value = true })

-- `fetched` is what the request would return, if it is made.
unfoldable pub get : Cache → ℕ → Result PoolControl → ℕ → Result PoolControl × Cache
unfolding load
get c now fetched later =
    if c.has_value && ltb (now - c.loaded_at) pool_control_cache_ttl
    then (ok c.value, c)
    else load c fetched later

unfoldable pub worker_pool_blocks_claims : PoolControl → Bool
worker_pool_blocks_claims control = control.maintenance_enabled || control.drain_enabled

unfoldable pub blocks : Result PoolControl → Bool
unfolding worker_pool_blocks_claims
blocks (ok control) = worker_pool_blocks_claims control
blocks (err e) = false
