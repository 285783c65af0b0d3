-- ===== src/LiveClock.antt =====
-- The clock that runs between two states of the server, `computeClock` of
-- frontend/src/shared/hooks/useLiveClock.ts. `time_of` stands for `new Date(text).getTime()`, as a
-- natural number; `Math.max(0, a - b)` is the subtraction of natural numbers.
use chessview.Common.{
  ℕ, ◌-◌, ◌+◌, ◌≤◌, String, ◌≡◌, Bool, true, not, ◌&&◌, Option, none, some, arith, if◌then◌else◌,
}
use chessview.Common.Text.{truthy}
use chessview.Types.{ClockState, PlayerColor}
use chessview.MakeMove.Turns.{has_color}

pub record Times : Type 0 where
  pub white_time_ms : ℕ
  pub black_time_ms : ℕ
  pub grace_remaining_ms : Option ℕ

module _ (time_of : String → ℕ) where
  -- The milliseconds since the server's state.
  abbrev pub elapsed_ms : ClockState → ℕ → ℕ
  elapsed_ms clock now = now - time_of clock.last_updated_at

  -- A side's time: it runs if the clock is not paused and the side is the active one.
  abbrev pub runs : ClockState → PlayerColor → Bool
  runs clock color = not clock.is_paused && has_color clock.active_color color

  abbrev grace : Option String → ℕ → Option ℕ
  grace none now = none
  grace (some deadline) now = if truthy deadline then some (time_of deadline - now) else none

  unfoldable pub compute_clock : Option ClockState → ℕ → Times
  compute_clock none now = record {
    white_time_ms = 0;
    black_time_ms = 0;
    grace_remaining_ms = none;
  }
  compute_clock (some clock) now = record {
    white_time_ms =
        if runs clock PlayerColor.white
        then clock.white_time_ms - elapsed_ms clock now
        else clock.white_time_ms;
    black_time_ms =
        if runs clock PlayerColor.black
        then clock.black_time_ms - elapsed_ms clock now
        else clock.black_time_ms;
    grace_remaining_ms = grace clock.grace_deadline_at now;
  }

  -- As time goes on no clock goes up, and together the two clocks lose no more than the time that
  -- has passed: at most one of them runs.
  pub compute_clock_antitone :
      (clock : Option ClockState) (now passed : ℕ)
      → let before : Times = compute_clock clock now in
        let after : Times = compute_clock clock (now + passed) in
        (after.white_time_ms ≤ before.white_time_ms)
        × (after.black_time_ms ≤ before.black_time_ms)
        × (before.white_time_ms + before.black_time_ms
            ≤ after.white_time_ms + after.black_time_ms + passed)
  unfolding compute_clock
  compute_clock_antitone clock now passed = ground arith

  -- A paused clock shows the times of the server, whatever the time is.
  pub compute_clock-paused :
      (clock : ClockState) (now : ℕ)
      → clock.is_paused ≡ true
      → ((compute_clock (some clock) now).white_time_ms ≡ clock.white_time_ms)
        × ((compute_clock (some clock) now).black_time_ms ≡ clock.black_time_ms)
  unfolding compute_clock
  compute_clock-paused clock now paused = ground arith
