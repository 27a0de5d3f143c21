-- ===== src/L2Handler/Timing/Laws.antt =====
-- When a stream is due.
use tsn_fieldbus.Base.{ℕ, ◌+◌, ◌<◌, ◌≤◌, ◌≡◌, arith, some, false}
use tsn_fieldbus.L2Handler.Timing.{is_due, duration_ns}

pub is_due-early :
    (cycle_time elapsed_at instant : ℕ)
    → 1 ≤ cycle_time
    → elapsed_at < instant + cycle_time
    → is_due cycle_time elapsed_at (some instant) ≡ false
unfolding is_due duration_ns
is_due-early cycle_time elapsed_at instant positive early = ground arith
