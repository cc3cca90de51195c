-- ===== src/CalendarPlan.antt =====
-- internal/calendarplan/calendarplan.go. A time is a number of nanoseconds and a duration is not
-- negative; the float conversion of DurationFromMinutes is left out. `sort.Slice` is an insertion
-- sort by the start.
pub mod Merge
pub mod Slots
use outlook_agent.Prelude.{
  Bool, List, String, [], any, false, if◌then◌else◌, leb, length, ltb, nat_eq, not, suc, true, zero,
  ℕ, ◌&&◌, ◌+◌, ◌-◌, ◌==◌, ◌||◌, ◌∷◌,
}
use outlook_agent.Prelude.Text.{trim_space, to_lower, equal_fold}

abbrev pub default_duration : ℕ
default_duration = 1_800_000_000_000

pub record Interval : Type 0 where
  pub start : ℕ
  pub end : ℕ
  pub status : String

pub record Suggestion : Type 0 where
  pub start : ℕ
  pub end : ℕ

pub record Options : Type 0 where
  pub duration : ℕ
  pub step : ℕ
  pub max_suggestions : ℕ
  pub tentative_policy : String

-- the switch on the normalised status
unfoldable pub blocks : Bool → String → Bool
blocks tentative_is_free status =
    if status == "busy"
      || status == "oof"
      || status == "outofoffice"
      || status == "unknown"
      || status == "nodata"
      || status == "no data"
      || status == "no-data"
      || status == "no_data"
    then true
    else if status == "tentative"
    then not tentative_is_free
    else false

unfoldable pub tentative_is_free : String → Bool
unfolding equal_fold trim_space
tentative_is_free policy = equal_fold (trim_space policy) "free"

-- the test that blockingIntervals makes on one interval
unfoldable pub is_blocking : Bool → Interval → Bool
unfolding blocks trim_space to_lower
is_blocking free interval =
    if not (ltb interval.start interval.end)
    then false
    else blocks free (to_lower (trim_space interval.status))

pub keep_blocking : Bool → List Interval → List Interval
keep_blocking free [] = []
keep_blocking free (interval ∷ rest) =
    let kept = keep_blocking free rest in
    if is_blocking free interval then interval ∷ kept else kept

unfoldable pub blocking_intervals : List Interval → String → List Interval
unfolding keep_blocking is_blocking tentative_is_free
blocking_intervals intervals policy = keep_blocking (tentative_is_free policy) intervals

unfoldable pub insert_by_start : Interval → List Interval → List Interval
insert_by_start x [] = x ∷ []
insert_by_start x (y ∷ ys) =
    let rest = insert_by_start x ys in if ltb y.start x.start then y ∷ rest else x ∷ y ∷ ys

unfoldable pub sort_by_start : List Interval → List Interval
unfolding insert_by_start
sort_by_start [] = []
sort_by_start (x ∷ xs) = insert_by_start x (sort_by_start xs)

-- last.End grows to the interval's end where that is later
abbrev pub join : Interval → Interval → Interval
join last interval = if ltb last.end interval.end then record last { end = interval.end } else last

-- the loop over the sorted intervals; `last` is the last one of `merged`
unfoldable pub merge_from : Interval → List Interval → List Interval
merge_from last [] = last ∷ []
merge_from last (interval ∷ rest) = elim (ltb last.end interval.start) [
  | true ↦ last ∷ merge_from interval rest
  | false ↦ merge_from (join last interval) rest
]

abbrev pub merge_sorted : List Interval → List Interval
merge_sorted [] = []
merge_sorted (x ∷ xs) = merge_from x xs

unfoldable pub merge_intervals : List Interval → List Interval
unfolding sort_by_start merge_from
merge_intervals intervals =
    if leb (length intervals) 1 then intervals else merge_sorted (sort_by_start intervals)

abbrev pub overlaps : ℕ → ℕ → Interval → Bool
overlaps start end interval = ltb start interval.end && ltb interval.start end

unfoldable pub overlaps_any : ℕ → ℕ → List Interval → Bool
overlaps_any start end intervals = any (overlaps start end) intervals

-- The loop on fuel: `left` is how many suggestions are still wanted.
unfoldable pub find_from : ℕ → ℕ → ℕ → List Interval → ℕ → ℕ → ℕ → List Suggestion
unfolding overlaps_any
find_from duration step end blocking zero slot left = []
find_from duration step end blocking (suc fuel) slot left = elim (ltb end (slot + duration)) [
  | true ↦ []
  | false ↦ elim (overlaps_any slot (slot + duration) blocking) [
    | true ↦ find_from duration step end blocking fuel (slot + step) left
    | false ↦ record { start = slot; end = slot + duration } ∷ elim (nat_eq left 1) [
      | true ↦ []
      | false ↦ find_from duration step end blocking fuel (slot + step) (left - 1)
    ]
  ]
]

abbrev pub or_default : ℕ → ℕ → ℕ
or_default value fallback = if leb value 0 then fallback else value

unfoldable pub find_suggestions : ℕ → ℕ → List Interval → Options → List Suggestion
unfolding find_from merge_intervals blocking_intervals
find_suggestions start end busy options =
    find_from (or_default options.duration default_duration)
      (or_default options.step 1_800_000_000_000) end
      (merge_intervals (blocking_intervals busy options.tentative_policy)) (suc (end - start)) start
      (or_default options.max_suggestions 5)
