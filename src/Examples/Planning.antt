-- ===== src/Examples/Planning.antt =====
-- Concrete runs of the theorems on the calendar planner.
use outlook_agent.Prelude.{All, List, [], arith, false, take, ℕ, ◌∷◌, ◌≡◌}
use outlook_agent.CalendarPlan.{
  Interval, Options, blocking_intervals, find_suggestions, merge_intervals, overlaps_any,
}
use outlook_agent.CalendarPlan.Merge.{IsSeparated, merge_intervals_faithful}
use outlook_agent.CalendarPlan.Slots.{
  IsInWindow, duration_of, find_suggestions-eq, find_suggestions_sound, free_slots, grid, limit_of,
  room, step_of,
}

abbrev busy : ℕ → ℕ → Interval
busy start end = record { start = start; end = end; status = "Busy" }

abbrev day : List Interval
day = busy 30 40 ∷ busy 0 10 ∷ busy 5 20 ∷ record (busy 40 60) { status = "tentative" } ∷ []

abbrev options : Options
options = record { duration = 10; step = 5; max_suggestions = 3; tentative_policy = "free" }

merge_intervals_faithful_example :
    IsSeparated (merge_intervals day)
    × (overlaps_any 20 30 (merge_intervals day) ≡ overlaps_any 20 30 day)
merge_intervals_faithful_example = merge_intervals_faithful 20 30 day (omega arith)

find_suggestions-eq_example :
    find_suggestions 0 100 day options
    ≡ take (limit_of options) (
        free_slots (blocking_intervals day options.tentative_policy) (
          grid
            (duration_of options)
            (step_of options)
            0
            (room (duration_of options) (step_of options) 100 0)))
find_suggestions-eq_example = find_suggestions-eq 0 100 day options

find_suggestions_sound_example :
    All
      (λ s.
        IsInWindow 0 100 (duration_of options) s
        × (overlaps_any s.start s.end (blocking_intervals day options.tentative_policy) ≡ false))
      (find_suggestions 0 100 day options)
find_suggestions_sound_example = find_suggestions_sound 0 100 day options
