-- ===== src/Disk/Tests.antt =====
-- The latency of requests, and the property at one of them.
use os_td_minf.Prelude.{◌^◌, true, ◌+◌, ◌≡◌, refl, false, arith}
use os_td_minf.Disk.Defs.{compute_latency, time_to_seek, modulo_diff, buffered}
use os_td_minf.Disk.Latency.{Takes, compute_latency_lem}

-- From sector 3 to sector 70, on the next track but one, at time 1234.
latency_70 : compute_latency 1234 3 0 70 false ≡ 2266
unfolding compute_latency time_to_seek modulo_diff buffered
latency_70 = refl

-- A sector of the same track that is in the track buffer.
latency_buffered : compute_latency 9000 3 0 5 false ≡ 500
unfolding compute_latency time_to_seek modulo_diff buffered
latency_buffered = refl

-- After 2 ^ 31 ticks the clock, as an `int`, is negative, and another sector is awaited.
latency_late : compute_latency (2 ^ 31 + 600) 3 0 70 true ≡ 14252
unfolding compute_latency time_to_seek modulo_diff buffered
latency_late = refl

compute_latency_lem_example : Takes 9000 3 0 5 false (compute_latency 9000 3 0 5 false)
compute_latency_lem_example =
    compute_latency_lem 9000 3 0 5 false (omega arith) (omega arith) (omega arith) (omega arith)
