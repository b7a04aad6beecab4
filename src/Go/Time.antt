-- ===== src/Go/Time.antt =====
-- Go times, as nanoseconds since the Unix epoch, and durations, as int64 nanoseconds.
use service_mesh_nats_go.Prelude.{if◌then◌else◌}
use service_mesh_nats_go.Prelude.Int.{ℤ, pos, negsuc, ◌+ℤ◌, ◌-ℤ◌, ltb_ℤ, max_i64}

abbrev pub min_duration : ℤ
min_duration = negsuc max_i64

abbrev pub max_duration : ℤ
max_duration = pos max_i64

-- t.Sub(u), which saturates
abbrev pub sub_time : ℤ → ℤ → ℤ
sub_time t u =
    let d = t -ℤ u in
    if ltb_ℤ d min_duration then min_duration else if ltb_ℤ max_duration d then max_duration else d

-- t.Add(d)
abbrev pub add_time : ℤ → ℤ → ℤ
add_time t d = t +ℤ d

-- The zero time, at the beginning of the year 1.
abbrev pub zero_time : ℤ
zero_time = negsuc 62_135_596_799_999_999_999
