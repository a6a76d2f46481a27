-- ===== src/Memory.antt =====
-- memory_monitor.py: the pressure levels, one combined reading with its zones, and the monitor
-- that keeps the last pressure it read.
use alpha_swarm.Prelude.{
  ℕ, ◌-◌, ◌*◌, Bool, true, false, ◌&&◌, not, Option, none, some, ltb, leb, ◌==◌, if◌then◌else◌,
}
use alpha_swarm.Settings.{GovernorSettings}

pub data PressureLevel : Type 0 where
  green yellow red : PressureLevel

pub record MemoryReading : Type 0 where
  pub used_percent : ℕ
  pub pressure_level : PressureLevel
  pub timestamp : ℕ
  pub throttle_threshold : ℕ
  pub pause_threshold : ℕ
  pub scale_up_threshold : ℕ

abbrev pub pressure_is_crisis : PressureLevel → Bool
pressure_is_crisis PressureLevel.green = false
pressure_is_crisis PressureLevel.yellow = true
pressure_is_crisis PressureLevel.red = true

unfoldable pub is_crisis : MemoryReading → Bool
is_crisis r = pressure_is_crisis r.pressure_level

unfoldable pub is_throttle_zone : MemoryReading → Bool
unfolding is_crisis
is_throttle_zone r = not (is_crisis r) && leb r.throttle_threshold r.used_percent

unfoldable pub is_pause_zone : MemoryReading → Bool
unfolding is_crisis
is_pause_zone r = not (is_crisis r) && leb r.pause_threshold r.used_percent

-- `is_crisis` is false exactly when the level is GREEN, so the last conjunct repeats the first.
abbrev is_green : PressureLevel → Bool
is_green PressureLevel.green = true
is_green PressureLevel.yellow = false
is_green PressureLevel.red = false

unfoldable pub is_scale_up_eligible : MemoryReading → Bool
unfolding is_crisis
is_scale_up_eligible r =
    not (is_crisis r) && ltb r.used_percent r.scale_up_threshold && is_green r.pressure_level

-- `_SYSCTL_PRESSURE_MAP.get(raw, GREEN)`
pressure_of : ℕ → PressureLevel
pressure_of raw =
    if raw == 2
    then PressureLevel.yellow
    else if raw == 4
    then PressureLevel.red
    else PressureLevel.green

-- The monitor's state. `_warned` only keeps log lines down and is left out.
pub record MemoryMonitor : Type 0 where
  pub kernel : Bool
  pub last_pressure : PressureLevel

-- A kernel read: a value, or an `OSError`. Values are naturals: a negative level is as far out of
-- `0 <= level <= 100` as one above it.
abbrev pub Sysctl : Type 0
Sysctl = Option ℕ

-- `read_used_percent`, given the level that the kernel returns and psutil's percentage.
unfoldable pub read_used_percent : MemoryMonitor → Sysctl → ℕ → ℕ
read_used_percent m none psutil = psutil
read_used_percent m (some level) psutil =
    if m.kernel && leb level 100 then (100 - level) * 100 else psutil

-- `read_macos_pressure`: fail-stale on an error, fail-open on an unknown value.
unfoldable pub read_macos_pressure : MemoryMonitor → Sysctl → PressureLevel × MemoryMonitor
unfolding pressure_of
read_macos_pressure m none = if m.kernel then (m.last_pressure, m) else (PressureLevel.green, m)
read_macos_pressure m (some raw) =
    if m.kernel
    then (pressure_of raw, record m { last_pressure = pressure_of raw })
    else (PressureLevel.green, m)

-- `read_combined`
unfoldable pub read_combined :
    GovernorSettings → MemoryMonitor → Sysctl → ℕ → Sysctl → ℕ → MemoryReading × MemoryMonitor
read_combined cfg m level psutil pressure now =
    let (seen, m') = read_macos_pressure m pressure in
    (
      record {
        used_percent = read_used_percent m level psutil;
        pressure_level = seen;
        timestamp = now;
        throttle_threshold = cfg.memory_throttle_percent;
        pause_threshold = cfg.memory_pause_percent;
        scale_up_threshold = cfg.scale_up_threshold_percent;
      },
      m',
    )
