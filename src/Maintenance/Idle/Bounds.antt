-- ===== src/Maintenance/Idle/Bounds.antt =====
-- The numbers of pausing and resuming: windows, replicas and the restored autoscaler.
use releasea_worker.Prelude.{
  ℕ, ◌≤◌, ◌<◌, ◌⊎◌, inl, inr, ltb, ◌&&◌, Bool-cases, if◌then◌else◌, String, true, ◌≡◌, In, arith,
}
use releasea_worker.Prelude.Int.{ℤ, pos, ◌≤ℤ◌, ◌<ℤ◌, ltb_ℤ, leb_ℤ, at_least, at_most}
use releasea_worker.Models.Payload.{Value}
use releasea_worker.Models.Service.{ServicePayload}
use releasea_worker.Maintenance.Idle.{
  IdleSettings, apply_autoscaler, Cluster, resume_replicas, idle_autoscaler_enabled, target_cpu,
  autoscaler_resource, idle_autoscaler_resource, restore_idle_autoscaler, resolve_pause_idle_window,
  resolve_pause_resume_window, wrap_int64, seconds,
}

idle_bounds :
    (settings : IdleSettings) (service : ServicePayload)
    → (60000000000 ≤ resolve_pause_idle_window settings service)
      × (resolve_pause_idle_window settings service ≤ 604800000000000)
unfolding resolve_pause_idle_window at_least at_most
idle_bounds settings service = (ground arith, ground arith)

wrap_int64_fits : (n : ℕ) → n < 9223372036854775808 → wrap_int64 n ≡ pos n
unfolding wrap_int64
wrap_int64_fits n h = ground arith

no_longer :
    (idle : ℕ) (window : ℤ)
    → 0 < idle
    → (if ltb 0 idle && ltb_ℤ (pos idle) window then pos idle else window) ≤ℤ pos idle
no_longer idle window h = ground arith

long_enough :
    (settings : IdleSettings) (idle : ℕ)
    → 60000000000 ≤ idle
    → (pos 30000000000 ≤ℤ resolve_pause_resume_window settings idle)
      ⊎ (pos 9223372036 <ℤ settings.resume_seconds)
unfolding resolve_pause_resume_window at_least
long_enough settings idle h = elim (Bool-cases (leb_ℤ settings.resume_seconds (pos 9223372036))) [
  | inl few ↦
      let asked = at_least (pos 30) settings.resume_seconds in
      let fits = wrap_int64_fits (seconds asked) (ground (arith, few)) in
      let least : 30000000000 ≤ seconds asked = ground arith in
      inl (rw fits (ground (arith, least, h)))
  | inr many ↦ inr (ground (arith, many))
]

-- Whatever the service and the environment say, the idle window lies between a minute and seven days,
-- and the resume window is no longer than it. The resume window has at least 30 seconds, unless the
-- environment asks for more than 9223372036 seconds, of which Go's product overflows.
pub pause_windows_bounds :
    (settings : IdleSettings) (service : ServicePayload)
    → let idle = resolve_pause_idle_window settings service in
      let resume = resolve_pause_resume_window settings idle in
      (60000000000 ≤ idle)
      × (idle ≤ 604800000000000)
      × (resume ≤ℤ pos idle)
      × ((pos 30000000000 ≤ℤ resume) ⊎ (pos 9223372036 <ℤ settings.resume_seconds))
unfolding resolve_pause_resume_window
pause_windows_bounds settings service =
    let (least, most) = idle_bounds settings service in
    (least, most, no_longer _ _ (omega (arith, least)), long_enough settings _ least)

-- A resumed service has at least one replica.
pub resume_replicas_pos : (service : ServicePayload) → pos 1 ≤ℤ resume_replicas service
unfolding resume_replicas
resume_replicas_pos service = ground arith

enabled_bounds :
    (service : ServicePayload)
    → idle_autoscaler_enabled service ≡ true
    → resume_replicas service <ℤ service.max_replicas
unfolding idle_autoscaler_enabled
enabled_bounds service h = ground arith

target_cpu_pos : (service : ServicePayload) → pos 1 ≤ℤ target_cpu service
unfolding target_cpu
target_cpu_pos service = ground arith

-- An autoscaler that is restored asks for at least one replica, leaves room above it, and aims at a
-- positive use of the processor.
restore_idle_autoscaler_bounds :
    (cluster : Cluster) (namespace name : String) (service : ServicePayload) (v : Value)
    → In (apply_autoscaler v) (restore_idle_autoscaler cluster namespace name service).1
    → (least : ℤ) × (most : ℤ) × (cpu : ℤ) × (v
        ≡ autoscaler_resource namespace name service.id least most cpu)
      × (pos 1 ≤ℤ least)
      × (least <ℤ most)
      × (pos 1 ≤ℤ cpu)
unfolding restore_idle_autoscaler idle_autoscaler_resource
restore_idle_autoscaler_bounds cluster namespace name service v i = (
  resume_replicas service,
  service.max_replicas,
  target_cpu service,
  ground arith,
  resume_replicas_pos service,
  enabled_bounds service (ground arith),
  target_cpu_pos service,
)
