-- ===== src/CalendarPlan/Slots.antt =====
-- FindSuggestions against its specification: the first free slots of the grid, the slots that lie in
-- the window.
use native.Mathlib.Nat.{div-eq_of_lt, div-eq-sub-div, div-le_self}
use outlook_agent.CalendarPlan.{
  Interval, Options, Suggestion, blocking_intervals, default_duration, find_from, find_suggestions,
  merge_intervals, or_default, overlaps_any,
}
use outlook_agent.CalendarPlan.Merge.{overlaps_any-merge_intervals}
use outlook_agent.Prelude.{
  All, Bool-cases, List, [], arith, false, if◌then◌else◌, inl, inr, ltb, refl, suc, take, tests,
  true, zero, ℕ, ◌+◌, ◌-◌, ◌/◌, ◌<◌, ◌∷◌, ◌≡◌, ◌≤◌,
}

-- How many slots of the grid from `slot` on end within the window.
pub room : ℕ → ℕ → ℕ → ℕ → ℕ
room duration step end slot =
    if ltb end (slot + duration) then 0 else (end - (slot + duration)) / step + 1

room_full :
    (duration step end slot : ℕ)
    → ltb end (slot + duration) ≡ true
    → room duration step end slot ≡ 0
unfolding room
room_full duration step end slot h = rw h

same_rest :
    (end slot duration step : ℕ) → end - (slot + duration) - step ≡ end - (slot + step + duration)
same_rest end slot duration step = omega arith

room_step :
    (duration step end slot : ℕ)
    → 0 < step
    → ltb end (slot + duration) ≡ false
    → room duration step end slot ≡ suc (room duration step end (slot + step))
unfolding room
room_step duration step end slot pos h = elim (Bool-cases (ltb end (slot + step + duration))) [
  | inl past ↦
      rw (h, past, div-eq_of_lt {n = end - (slot + duration)} {m = step} (omega tests))
        (omega arith)
  | inr fits ↦
      rw
        (
          h,
          fits,
          div-eq-sub-div {m = step} {n = end - (slot + duration)} pos (omega tests),
          same_rest end slot duration step,
        )
        (omega arith)
]

room-le :
    (duration step end slot : ℕ) → 0 < duration → room duration step end slot ≤ suc (end - slot)
unfolding room
room-le duration step end slot pos = ground (arith, div-le_self (end - (slot + duration)) step)

-- `n` slots of the grid, from `slot` on.
pub grid : ℕ → ℕ → ℕ → ℕ → List Suggestion
grid duration step slot zero = []
grid duration step slot (suc n) =
    record { start = slot; end = slot + duration } ∷ grid duration step (slot + step) n

-- The slots that none of the intervals overlaps.
pub free_slots : List Interval → List Suggestion → List Suggestion
free_slots busy [] = []
free_slots busy (s ∷ rest) =
    let kept = free_slots busy rest in if overlaps_any s.start s.end busy then kept else s ∷ kept

take_nil : (n : ℕ) → take {A = Suggestion} n [] ≡ []
take_nil zero = refl
take_nil (suc n) = refl

none_left : (n : ℕ) → n ≤ 0 → n ≡ 0
none_left n h = omega arith

module _ (duration step end : ℕ) (busy blocking : List Interval) (positive : 0 < step)
    (same : (slot : ℕ)
      → overlaps_any slot (slot + duration) blocking
        ≡ overlaps_any slot (slot + duration) busy) where
  -- the slots that are left after `slot`
  abbrev rest_of : ℕ → List Suggestion
  rest_of slot =
      free_slots busy (grid duration step (slot + step) (room duration step end (slot + step)))

  fits_case :
      (fuel slot left : ℕ)
      → ltb end (slot + duration) ≡ false
      → find_from duration step end blocking fuel (slot + step) (suc left)
        ≡ take (suc left) (rest_of slot)
      → ((k : ℕ)
          → left ≡ suc k
          → find_from duration step end blocking fuel (slot + step) left ≡ take left (rest_of slot))
      → find_from duration step end blocking (suc fuel) slot (suc left)
        ≡ take (suc left) (
            free_slots busy (
              record { start = slot; end = slot + duration }
              ∷ grid duration step (slot + step) (room duration step end (slot + step))))
  unfolding find_from free_slots
  fits_case fuel slot zero fits skip more =
      elim (Bool-cases (overlaps_any slot (slot + duration) busy)) [
        | inl taken ↦ ground (arith, fits, taken, same slot, skip)
        | inr free ↦ ground (arith, fits, free, same slot)
      ]
  fits_case fuel slot (suc left) fits skip more =
      elim (Bool-cases (overlaps_any slot (slot + duration) busy)) [
        | inl taken ↦ ground (arith, fits, taken, same slot, skip)
        | inr free ↦ ground (arith, fits, free, same slot, more left refl)
      ]

  find_from-eq :
      (fuel slot left : ℕ)
      → room duration step end slot ≤ fuel
      → find_from duration step end blocking fuel slot (suc left)
        ≡ take (suc left) (free_slots busy (grid duration step slot (room duration step end slot)))
  unfolding find_from free_slots grid
  find_from-eq zero slot left enough =
      ground (arith, none_left (room duration step end slot) enough)
  find_from-eq (suc fuel) slot left enough = elim (Bool-cases (ltb end (slot + duration))) [
    | inl past ↦ ground (arith, past, room_full duration step end slot past)
    | inr fits ↦
        let shorter : room duration step end (slot + step) ≤ fuel =
          omega (arith, room_step duration step end slot positive fits) in
        rw (room_step duration step end slot positive fits) (
          fits_case fuel slot left fits (find_from-eq fuel (slot + step) left shorter)
            (λ k e. rw e (find_from-eq fuel (slot + step) k shorter)))
  ]

abbrev pub duration_of : Options → ℕ
duration_of options = or_default options.duration default_duration

abbrev pub step_of : Options → ℕ
step_of options = or_default options.step 1_800_000_000_000

abbrev pub limit_of : Options → ℕ
limit_of options = or_default options.max_suggestions 5

or_default-suc :
    (value fallback : ℕ)
    → 0 < fallback
    → or_default value fallback ≡ suc (or_default value fallback - 1)
or_default-suc value fallback pos = ground arith

module _ (start end : ℕ) (busy : List Interval) (options : Options) where
  -- FindSuggestions returns the first free slots of the grid, as many as are wanted: the slots start
  -- at `start` and every step after it, those that end within the window are on the grid, and a
  -- slot is free if no blocking interval of the calendar overlaps it. The loop needs no more rounds
  -- than the fuel it is given, and merging the intervals changes nothing.
  pub find_suggestions-eq :
      find_suggestions start end busy options
      ≡ take (limit_of options) (
          free_slots (blocking_intervals busy options.tentative_policy) (
            grid
              (duration_of options)
              (step_of options)
              start
              (room (duration_of options) (step_of options) end start)))
  unfolding find_suggestions
  find_suggestions-eq =
      let blocking = blocking_intervals busy options.tentative_policy in
      rw (or_default-suc options.max_suggestions 5 (omega arith)) (
        find_from-eq (duration_of options) (step_of options) end blocking (merge_intervals blocking)
          (ground arith)
          (λ slot.
            overlaps_any-merge_intervals slot (slot + duration_of options) blocking (ground arith))
          (suc (end - start)) start (or_default options.max_suggestions 5 - 1)
          (room-le (duration_of options) (step_of options) end start (ground arith)))

-- A slot of the asked length within the window.
abbrev pub IsInWindow : ℕ → ℕ → ℕ → Suggestion → Type 0
IsInWindow start end duration s = (start ≤ s.start) × (s.end ≡ s.start + duration) × (s.end ≤ end)

grid-IsInWindow :
    (duration step start end slot n : ℕ)
    → 0 < step
    → start ≤ slot
    → n ≡ room duration step end slot
    → All (IsInWindow start end duration) (grid duration step slot n)
unfolding grid
grid-IsInWindow duration step start end slot zero pos h e = tt
grid-IsInWindow duration step start end slot (suc n) pos h e =
    elim (Bool-cases (ltb end (slot + duration))) [
      | inl past ↦ absurd (omega (arith, room_full duration step end slot past))
      | inr fits ↦ (
        (h, refl, omega tests),
        grid-IsInWindow duration step start end (slot + step) n pos (omega arith)
            (omega (arith, room_step duration step end slot pos fits)),
      )
    ]

All-free_slots :
    (P : Suggestion → Type 0) (busy : List Interval) (xs : List Suggestion)
    → All P xs
    → All (λ s. P s × (overlaps_any s.start s.end busy ≡ false)) (free_slots busy xs)
unfolding free_slots
All-free_slots P busy [] h = tt
All-free_slots P busy (x ∷ xs) h = elim (Bool-cases (overlaps_any x.start x.end busy)) [
  | inl taken ↦ rw taken (All-free_slots P busy xs h.1)
  | inr free ↦ rw free ((h.0, free), All-free_slots P busy xs h.1)
]

All-take : (P : Suggestion → Type 0) (n : ℕ) (xs : List Suggestion) → All P xs → All P (take n xs)
All-take P zero xs h = tt
All-take P (suc n) [] h = tt
All-take P (suc n) (x ∷ xs) h = (h.0, All-take P n xs h.1)

-- Every suggestion lies in the window, has the asked length, and overlaps none of the calendar's
-- blocking intervals.
pub find_suggestions_sound :
    (start end : ℕ) (busy : List Interval) (options : Options)
    → All
        (λ s.
          IsInWindow start end (duration_of options) s
          × (overlaps_any s.start s.end (blocking_intervals busy options.tentative_policy) ≡ false))
        (find_suggestions start end busy options)
find_suggestions_sound start end busy options = rw (find_suggestions-eq start end busy options) (
    All-take _ (limit_of options) _ (
      All-free_slots _ (blocking_intervals busy options.tentative_policy) _ (
        grid-IsInWindow (duration_of options) (step_of options) start end start _ (ground arith)
          (omega arith) refl)))
