-- ===== src/Tests/Ranges.antt =====
-- range_map.hpp at concrete maps.
use efiperun_mod.Prelude.{ℕ, ◌≡◌, refl, true, false, none, some, [], ◌∷◌, nat_eq, arith}
use efiperun_mod.RangeMap.{
  Map, entry, insert, inject, erase_point, erase_range, lookup, find, lower_bound, locate, found_at,
}
use efiperun_mod.RangeMap.Intervals.{IsFrom}
use efiperun_mod.RangeMap.Insert.{Updates, IsInserted, insert-IsInserted}
use efiperun_mod.RangeMap.Inject.{inject-IsInserted}
use efiperun_mod.RangeMap.Erase.{overhangs, erase_range-Updates}

abbrev sample : Map ℕ
sample = entry 10 20 1 ∷ entry 20 30 2 ∷ entry 40 50 3 ∷ []

sample-IsFrom : IsFrom 0 sample
sample-IsFrom = omega arith

lookup_runs : lookup 25 sample ≡ some 2
unfolding lookup
lookup_runs = refl

find_runs : find 0 35 sample ≡ (0, 0, none)
unfolding find found_at lower_bound locate
find_runs = refl

insert_runs :
    insert 30 40 9 sample
    ≡ (entry 10 20 1 ∷ entry 20 30 2 ∷ entry 30 40 9 ∷ entry 40 50 3 ∷ [], true)
unfolding insert
insert_runs = refl

insert_overlap_runs : insert 15 40 9 sample ≡ (sample, false)
unfolding insert
insert_overlap_runs = refl

inject_merges_left :
    inject 30 35 2 sample ≡ (entry 10 20 1 ∷ entry 20 35 2 ∷ entry 40 50 3 ∷ [], true)
unfolding inject
inject_merges_left = refl

inject_merges_right :
    inject 5 10 1 sample ≡ (entry 5 20 1 ∷ entry 20 30 2 ∷ entry 40 50 3 ∷ [], true)
unfolding inject
inject_merges_right = refl

erase_point_runs : erase_point 45 sample ≡ (entry 10 20 1 ∷ entry 20 30 2 ∷ [], true)
unfolding erase_point
erase_point_runs = refl

erase_range_runs : erase_range 15 45 sample ≡ some (entry 10 15 1 ∷ entry 45 50 3 ∷ [])
unfolding erase_range
erase_range_runs = refl

erase_range_inside :
    erase_range 42 44 sample
    ≡ some (entry 10 20 1 ∷ entry 20 30 2 ∷ entry 40 42 3 ∷ entry 44 50 3 ∷ [])
unfolding erase_range
erase_range_inside = refl

-- the empty interval that is left behind
erase_range_stub :
    erase_range 40 45 sample
    ≡ some (entry 10 20 1 ∷ entry 20 30 2 ∷ entry 40 40 3 ∷ entry 45 50 3 ∷ [])
unfolding erase_range
erase_range_stub = refl

insert-IsInserted_example : IsInserted 30 40 9 sample (insert 30 40 9 sample)
insert-IsInserted_example = insert-IsInserted 30 40 9 sample sample-IsFrom

inject-IsInserted_example : IsInserted 30 40 2 sample (inject 30 40 2 sample)
inject-IsInserted_example = inject-IsInserted 30 40 2 sample sample-IsFrom

fits : overhangs 15 45 sample ≡ false
unfolding overhangs
fits = refl

erase_range-Updates_example :
    (m' : Map ℕ) × (erase_range 15 45 sample ≡ some m') × Updates 15 45 none sample m'
erase_range-Updates_example = erase_range-Updates 15 45 sample sample-IsFrom fits

hangs_over : overhangs 40 45 sample ≡ true
unfolding overhangs
hangs_over = refl
