-- ===== src/Interrupts/Clock.antt =====
-- The distance to the next tick, `resetIntervalTimer` of phase2/initial.c.
use pandos_plus.Base.{
  ℕ, ◌+◌, ◌⊎◌, inl, inr, Bool-cases, ◌-◌, ◌*◌, ◌%◌, ◌^◌, ◌≡◌, ◌≤◌, ◌<◌, arith, ltb,
}
use pandos_plus.Interrupts.{psecond, next_tick}

-- For a time of day below 2 ^ 31, the interval timer is set to at least 1 and at most `PSECOND`,
-- and rings at a multiple of `PSECOND`; from then on, where the time is negative in `cpu_t`, it
-- still rings at a multiple of `PSECOND` of that time, but is set to at least `PSECOND` and less
-- than twice as much.
pub next_tick-rings :
    (time : ℕ)
    → time < 2 ^ 32
    → ((time < 2 ^ 31)
        × (0 < next_tick time)
        × (next_tick time ≤ psecond)
        × ((time + next_tick time) % psecond ≡ 0))
      ⊎ ((2 ^ 31 ≤ time)
          × (psecond ≤ next_tick time)
          × (next_tick time < 2 * psecond)
          × (next_tick time % psecond ≡ (2 ^ 32 - time) % psecond))
unfolding next_tick
next_tick-rings time word = elim (Bool-cases (ltb time (2 ^ 31))) [
  | inl e ↦ inl (rw e (ground arith, omega arith, omega arith, omega arith))
  | inr e ↦ inr (rw e (ground arith, omega arith, omega arith, omega arith))
]
