-- ===== src/RangeMap.antt =====
-- vast/util/range_map.hpp: `range_map<Point, Value>`, a map from disjoint half-open intervals to
-- values, over a `std::map` from left endpoints to (right endpoint, value) pairs.
--
-- A point is its position in the order of `Point`; `std::map` is the list of its entries in key
-- order. An iterator is a pair: the entries before it, nearest first, and those from it on;
-- `end()` has none of the latter. A place is an iterator that is not `end()`.
pub mod Intervals
pub mod Lookup
pub mod Insert
pub mod Inject
pub mod Pending
pub mod Erase
pub mod Overhang
pub mod Replace
pub mod Placed
use efiperun_mod.Prelude.{
  ℕ, zero, suc, Bool, true, false, not, ◌&&◌, ◌||◌, Option, none, some, List, [], ◌∷◌, ltb, leb,
  ◌==◌, if◌then◌else◌, Eq, length,
}

pub record Entry {ℓ} (V : Type ℓ) : Type ℓ where
  pub left : ℕ
  pub right : ℕ
  pub value : V

abbrev pub Map {ℓ} : Type ℓ → Type ℓ
Map V = List (Entry V)

abbrev pub Iter {ℓ} : Type ℓ → Type ℓ
Iter V = List (Entry V) × List (Entry V)

abbrev pub Place {ℓ} : Type ℓ → Type ℓ
Place V = List (Entry V) × Entry V × List (Entry V)

-- What one round of the loop in `erase(l, r)` does: leave the loop with a map, or go round again
-- with a map, where `next_left` is `right(it)` as it was.
pub data Round {ℓ} (V : Type ℓ) : Type ℓ where
  leave : Map V → Round V
  again : ℕ → Map V → Round V

module _ {ℓ} {V : Type ℓ} where
  abbrev pub entry : ℕ → ℕ → V → Entry V
  entry l r v = record { left = l; right = r; value = v }

  -- the whole map, from an iterator into it
  unfoldable pub rejoin : List (Entry V) → List (Entry V) → Map V
  rejoin [] a = a
  rejoin (e ∷ b) a = rejoin b (e ∷ a)

  unfoldable pub seek : ℕ → List (Entry V) → List (Entry V) → Iter V
  seek p b [] = (b, [])
  seek p b (e ∷ a) = if ltb e.left p then seek p (e ∷ b) a else (b, e ∷ a)

  -- `std::map::lower_bound`: the first entry whose key is not below `p`
  unfoldable pub lower_bound : ℕ → Map V → Iter V
  unfolding seek
  lower_bound p m = seek p [] m

  -- `std::map::emplace`: a key that is there already stays as it is
  unfoldable pub map_emplace : ℕ → ℕ → V → Map V → Map V
  map_emplace l r v [] = entry l r v ∷ []
  map_emplace l r v (e ∷ m) =
      if ltb e.left l
      then e ∷ map_emplace l r v m
      else if e.left == l
      then e ∷ m
      else entry l r v ∷ e ∷ m

  -- `std::map::count`, which decides `emplace(…).second`
  unfoldable pub has_key : ℕ → Map V → Bool
  has_key l [] = false
  has_key l (e ∷ m) = e.left == l || has_key l m

  -- `std::map::erase` through an iterator to the entry with key `k`
  unfoldable pub erase_key : ℕ → Map V → Map V
  erase_key k [] = []
  erase_key k (e ∷ m) = if e.left == k then m else e ∷ erase_key k m

  -- `p < right(--lb)`, unless `lb` is `begin()`
  unfoldable pub before_place : ℕ → List (Entry V) → List (Entry V) → Option (Place V)
  before_place p [] a = none
  before_place p (e ∷ b) a = if ltb p e.right then some (b, e, a) else none

  -- `locate`; `none` is `end()`
  unfoldable pub locate : ℕ → Iter V → Option (Place V)
  unfolding before_place
  locate p (b, []) = before_place p b []
  locate p (b, e ∷ a) = if p == e.left then some (b, e, a) else before_place p b (e ∷ a)

  -- `lb == map_.end() || r <= left(lb)`
  unfoldable pub ends_before : ℕ → List (Entry V) → Bool
  ends_before r [] = true
  ends_before r (e ∷ a) = leb r e.left

  -- `p == map_.end() || l >= right(p)` for the entry before an iterator
  unfoldable pub starts_after : ℕ → List (Entry V) → Bool
  starts_after l [] = true
  starts_after l (e ∷ b) = leb e.right l

  unfoldable pub insert_at : ℕ → ℕ → V → Map V → Option (Place V) → Iter V → Map V × Bool
  unfolding ends_before map_emplace has_key
  insert_at l r v m (some _) lb = (m, false)
  insert_at l r v m none lb =
      if ends_before r lb.1 then (map_emplace l r v m, not (has_key l m)) else (m, false)

  unfoldable pub insert : ℕ → ℕ → V → Map V → Map V × Bool
  unfolding lower_bound locate insert_at
  insert l r v m =
      let lb = lower_bound l m in if leb r l then (m, false) else insert_at l r v m (locate l lb) lb

  unfoldable pub erase_point : ℕ → Map V → Map V × Bool
  unfolding lower_bound locate rejoin
  erase_point p m = elim (locate p (lower_bound p m)) [
    | none ↦ (m, false)
    | some (b, e, a) ↦ (rejoin b a, true)
  ]

  unfoldable pub lookup : ℕ → Map V → Option V
  unfolding lower_bound locate
  lookup p m = elim (locate p (lower_bound p m)) [ none ↦ none | some (b, e, a) ↦ some e.value ]

  -- `{0, 0, nullptr}` at `end()`; `zero_point` is the `0` of `Point`
  unfoldable pub found_at : (zero_point : ℕ) → Option (Place V) → ℕ × ℕ × Option V
  found_at zero_point none = (zero_point, zero_point, none)
  found_at zero_point (some (b, e, a)) = (e.left, e.right, some e.value)

  unfoldable pub find : (zero_point : ℕ) → ℕ → Map V → ℕ × ℕ × Option V
  find zero_point p m = found_at zero_point (locate p (lower_bound p m))

  unfoldable pub size : Map V → ℕ
  size m = length m

  unfoldable pub empty : Map V → Bool
  empty [] = true
  empty (e ∷ m) = false

  unfoldable pub clear : Map V → Map V
  clear m = []

  -- `--i` where `i` is `end()`, or neither `begin()` nor an entry at `l`
  unfoldable pub adjust : ℕ → Iter V → Option (Place V)
  adjust l ([], []) = none
  adjust l (p ∷ b, []) = some (b, p, [])
  adjust l ([], e ∷ a) = some ([], e, a)
  adjust l (p ∷ b, e ∷ a) = if l == e.left then some (p ∷ b, e, a) else some (b, p, e ∷ a)

  -- `right(p) = r` for the entry before an iterator
  unfoldable pub set_right : ℕ → List (Entry V) → List (Entry V)
  set_right r [] = []
  set_right r (p ∷ b) = record p { right = r } ∷ b

  unfoldable pub tail : List (Entry V) → List (Entry V)
  tail [] = []
  tail (e ∷ a) = a

  -- `right` of the entry at an iterator; the code reads it only where there is one
  unfoldable pub right_or : ℕ → List (Entry V) → ℕ
  right_or d [] = d
  right_or d (n ∷ a) = n.right

  unfoldable pub key_or : ℕ → List (Entry V) → ℕ
  key_or d [] = d
  key_or d (n ∷ a) = n.left

  -- the entry at an iterator, if it is not `end()`
  unfoldable pub place_at : Iter V → Option (Place V)
  place_at (b, []) = none
  place_at (b, e ∷ a) = some (b, e, a)

  -- `it`: the entry that holds `p`, else the first one from `p` on
  unfoldable pub from_point : ℕ → Map V → Option (Place V)
  unfolding lower_bound locate place_at
  from_point p m = elim (locate p (lower_bound p m)) [
    | some w ↦ some w
    | none ↦ place_at (lower_bound p m)
  ]

module _ {ℓ} {V : Type ℓ} ⦃veq : Eq V⦄ where
  -- a neighbour that touches the new interval and has its value
  unfoldable pub left_merge : ℕ → V → List (Entry V) → Bool
  left_merge l v [] = false
  left_merge l v (p ∷ b) = l == p.right && veq.equal v p.value

  unfoldable pub right_merge : ℕ → V → List (Entry V) → Bool
  right_merge r v [] = false
  right_merge r v (n ∷ a) = r == n.left && veq.equal v n.value

  -- The two branches of `inject` have one body: the new interval goes between the entry before
  -- (`p` or `i`) and the one after (`i` or `n`). `b` and `a` are the two sides of the gap.
  unfoldable pub fill_gap : ℕ → ℕ → V → List (Entry V) → List (Entry V) → Map V
  unfolding left_merge right_merge set_right tail right_or key_or rejoin map_emplace erase_key
  fill_gap l r v b a =
      if left_merge l v b && right_merge r v a
      then rejoin (set_right (right_or r a) b) (tail a)
      else if left_merge l v b
      then rejoin (set_right r b) a
      else if right_merge r v a
      then erase_key (key_or r a) (map_emplace l (right_or r a) v (rejoin b a))
      else map_emplace l r v (rejoin b a)

  unfoldable pub inject_at : ℕ → ℕ → V → Map V → Option (Place V) → Map V × Bool
  unfolding fill_gap ends_before starts_after
  inject_at l r v m none = (map_emplace l r v m, not (has_key l m))
  inject_at l r v m (some (b, i, a)) =
      if leb r i.left && starts_after l b
      then (fill_gap l r v b (i ∷ a), true)
      else if leb i.right l && ends_before r a
      then (fill_gap l r v (i ∷ b) a, true)
      else (m, false)

  -- `none` from `adjust` is the empty map
  unfoldable pub inject : ℕ → ℕ → V → Map V → Map V × Bool
  unfolding inject_at adjust lower_bound
  inject l r v m = if leb r l then (m, false) else inject_at l r v m (adjust l (lower_bound l m))

  unfoldable pub erase_round : ℕ → ℕ → Map V → Option (Place V) → Round V
  unfolding inject map_emplace erase_key rejoin
  erase_round l r m none = leave m
  erase_round l r m (some (b, e, a)) =
      if leb r e.left
      then leave m
      else if leb l e.left && leb e.right r
      then again e.right (rejoin b a)
      else if leb e.left l && leb r e.right
      then leave (inject r e.right e.value (rejoin b (record e { right = l } ∷ a))).0
      else if leb l e.left && ltb e.left r
      then leave (erase_key e.left (map_emplace r e.right e.value m))
      else if ltb l e.right && leb e.right r
      then again e.right (rejoin b (record e { right = l } ∷ a))
      else again e.right m

  -- The loop; `none` means that the fuel ran out.
  unfoldable pub erase_loop : ℕ → ℕ → ℕ → ℕ → Map V → Option (Map V)
  unfolding erase_round from_point
  erase_loop zero l r next m = none
  erase_loop (suc fuel) l r next m = elim (erase_round l r m (from_point next m)) [
    | leave m' ↦ some m'
    | again next' m' ↦ erase_loop fuel l r next' m'
  ]

  unfoldable pub erase_range : ℕ → ℕ → Map V → Option (Map V)
  unfolding erase_loop
  erase_range l r m = if leb r l then some m else erase_loop (suc (length m)) l r l m
