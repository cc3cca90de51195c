-- ===== src/CalendarPlan/Merge.antt =====
-- mergeIntervals: it overlaps with a slot exactly when an interval it was given does, and its result
-- is sorted with gaps between the intervals.
use outlook_agent.Prelude.{
  Bool, Bool-cases, List, [], any, arith, false, inl, inr, leb, length, ltb, refl, tests, true, ℕ,
  ◌<◌, ◌||◌, ◌∙◌, ◌∷◌, ◌≡◌, ◌≤◌,
}
use outlook_agent.CalendarPlan.{
  merge_intervals, overlaps_any, merge_sorted, join, Interval, insert_by_start, merge_from,
  overlaps, sort_by_start,
}

-- Every start is at least `lo`, and the starts ascend.
abbrev AscendsFrom : ℕ → List Interval → Type 0
AscendsFrom lo [] = Unit
AscendsFrom lo (x ∷ xs) = (lo ≤ x.start) × AscendsFrom x.start xs

AscendsFrom-insert_by_start :
    (lo : ℕ) (x : Interval) (ys : List Interval)
    → lo ≤ x.start
    → AscendsFrom lo ys
    → AscendsFrom lo (insert_by_start x ys)
unfolding insert_by_start
AscendsFrom-insert_by_start lo x [] h a = (h, tt)
AscendsFrom-insert_by_start lo x (y ∷ ys) h a = elim (Bool-cases (ltb y.start x.start)) [
  | inl less ↦ rw less (a.0, AscendsFrom-insert_by_start y.start x ys (omega tests) a.1)
  | inr more ↦ rw more (h, (omega tests, a.1))
]

AscendsFrom-sort_by_start : (xs : List Interval) → AscendsFrom 0 (sort_by_start xs)
unfolding sort_by_start
AscendsFrom-sort_by_start [] = tt
AscendsFrom-sort_by_start (x ∷ xs) =
    AscendsFrom-insert_by_start 0 x (sort_by_start xs) (omega arith) (AscendsFrom-sort_by_start xs)

AscendsFrom-weaken :
    {lo hi : ℕ} (xs : List Interval) → lo ≤ hi → AscendsFrom hi xs → AscendsFrom lo xs
AscendsFrom-weaken [] h a = tt
AscendsFrom-weaken (x ∷ xs) h a = (omega arith, a.1)

start-join : (x y : Interval) → (join x y).start ≡ x.start
start-join x y = ground arith

AscendsFrom-join :
    (x y : Interval) (ys : List Interval)
    → x.start ≤ y.start
    → AscendsFrom y.start ys
    → AscendsFrom (join x y).start ys
AscendsFrom-join x y ys h a = rw (start-join x y) (AscendsFrom-weaken ys h a)

merge_from_gap :
    (x y : Interval) (ys : List Interval)
    → ltb x.end y.start ≡ true
    → merge_from x (y ∷ ys) ≡ x ∷ merge_from y ys
unfolding merge_from
merge_from_gap x y ys gap = rw (gap, merge_from)

merge_from_touch :
    (x y : Interval) (ys : List Interval)
    → ltb x.end y.start ≡ false
    → merge_from x (y ∷ ys) ≡ merge_from (join x y) ys
unfolding merge_from
merge_from_touch x y ys touch = rw (touch, merge_from)

module _ (start end : ℕ) where
  any-insert_by_start :
      (x : Interval) (ys : List Interval)
      → any (overlaps start end) (insert_by_start x ys)
        ≡ (overlaps start end x || any (overlaps start end) ys)
  unfolding insert_by_start
  any-insert_by_start x [] = refl
  any-insert_by_start x (y ∷ ys) = ground (arith, any-insert_by_start x ys)

  any-sort_by_start :
      (xs : List Interval)
      → any (overlaps start end) (sort_by_start xs) ≡ any (overlaps start end) xs
  unfolding sort_by_start
  any-sort_by_start [] = refl
  any-sort_by_start (x ∷ xs) = any-insert_by_start x (sort_by_start xs) ∙ rw (any-sort_by_start xs)

  overlaps-join :
      (x y : Interval)
      → start < end
      → x.start ≤ y.start
      → y.start ≤ x.end
      → overlaps start end (join x y) ≡ (overlaps start end x || overlaps start end y)
  overlaps-join x y proper order touch = ground arith

  or_assoc : (a b c : Bool) → ((a || b) || c) ≡ (a || (b || c))
  or_assoc a b c = ground arith

  any-merge_from :
      (x : Interval) (xs : List Interval)
      → start < end
      → AscendsFrom x.start xs
      → any (overlaps start end) (merge_from x xs)
        ≡ (overlaps start end x || any (overlaps start end) xs)
  unfolding merge_from
  any-merge_from x [] proper a = refl
  any-merge_from x (y ∷ ys) proper a = elim (Bool-cases (ltb x.end y.start)) [
    | inl gap ↦ rw (merge_from_gap x y ys gap) (rw (any-merge_from y ys proper a.1))
    | inr touch ↦
        rw
          (
            merge_from_touch x y ys touch,
            any-merge_from (join x y) ys proper (AscendsFrom-join x y ys a.0 a.1),
            overlaps-join x y proper a.0 (omega tests),
          )
          (or_assoc (overlaps start end x) (overlaps start end y) (any (overlaps start end) ys))
  ]

  any-merge_sorted :
      (xs : List Interval)
      → start < end
      → AscendsFrom 0 xs
      → any (overlaps start end) (merge_sorted xs) ≡ any (overlaps start end) xs
  any-merge_sorted [] proper a = refl
  any-merge_sorted (x ∷ xs) proper a = any-merge_from x xs proper a.1

  -- For a slot that has a length, the merged intervals block it exactly when one of the intervals
  -- before merging does.
  pub overlaps_any-merge_intervals :
      (xs : List Interval)
      → start < end
      → overlaps_any start end (merge_intervals xs) ≡ overlaps_any start end xs
  unfolding overlaps_any merge_intervals
  overlaps_any-merge_intervals xs proper = elim (Bool-cases (leb (length xs) 1)) [
    | inl short ↦ rw short
    | inr long ↦ rw long (
        any-merge_sorted (sort_by_start xs) proper (AscendsFrom-sort_by_start xs)
        ∙ any-sort_by_start xs)
  ]

-- The first interval of the list, if there is one, starts after `e`.
abbrev StartsAfter : ℕ → List Interval → Type 0
StartsAfter e [] = Unit
StartsAfter e (x ∷ xs) = e < x.start

-- Each interval ends before the next one starts.
abbrev pub IsSeparated : List Interval → Type 0
IsSeparated [] = Unit
IsSeparated (x ∷ xs) = StartsAfter x.end xs × IsSeparated xs

StartsAfter-merge_from :
    (e : ℕ) (x : Interval) (xs : List Interval) → e < x.start → StartsAfter e (merge_from x xs)
unfolding merge_from
StartsAfter-merge_from e x [] h = h
StartsAfter-merge_from e x (y ∷ ys) h = elim (Bool-cases (ltb x.end y.start)) [
  | inl gap ↦ rw (merge_from_gap x y ys gap) h
  | inr touch ↦
      rw (merge_from_touch x y ys touch) (StartsAfter-merge_from e (join x y) ys (ground arith))
]

IsSeparated-merge_from : (x : Interval) (xs : List Interval) → IsSeparated (merge_from x xs)
unfolding merge_from
IsSeparated-merge_from x [] = (tt, tt)
IsSeparated-merge_from x (y ∷ ys) = elim (Bool-cases (ltb x.end y.start)) [
  | inl gap ↦
      rw (merge_from_gap x y ys gap)
        (StartsAfter-merge_from x.end y ys (omega tests), IsSeparated-merge_from y ys)
  | inr touch ↦ rw (merge_from_touch x y ys touch) (IsSeparated-merge_from (join x y) ys)
]

IsSeparated-merge_sorted : (xs : List Interval) → IsSeparated (merge_sorted xs)
IsSeparated-merge_sorted [] = tt
IsSeparated-merge_sorted (x ∷ xs) = IsSeparated-merge_from x xs

IsSeparated-short : (xs : List Interval) → leb (length xs) 1 ≡ true → IsSeparated xs
IsSeparated-short [] h = tt
IsSeparated-short (x ∷ []) h = (tt, tt)
IsSeparated-short (x ∷ y ∷ ys) h = absurd (omega tests)

-- After merging, each interval ends before the next one starts.
merge_intervals-IsSeparated : (xs : List Interval) → IsSeparated (merge_intervals xs)
unfolding merge_intervals
merge_intervals-IsSeparated xs = elim (Bool-cases (leb (length xs) 1)) [
  | inl short ↦ rw short (IsSeparated-short xs short)
  | inr long ↦ rw long (IsSeparated-merge_sorted (sort_by_start xs))
]

-- Merging separates the intervals, each ending before the next one starts, and it keeps what they
-- block: for a slot that has a length, the merged intervals block it exactly when one of the intervals
-- before merging does.
pub merge_intervals_faithful :
    (start end : ℕ) (xs : List Interval)
    → start < end
    → IsSeparated (merge_intervals xs)
      × (overlaps_any start end (merge_intervals xs) ≡ overlaps_any start end xs)
merge_intervals_faithful start end xs proper =
    (merge_intervals-IsSeparated xs, overlaps_any-merge_intervals start end xs proper)
