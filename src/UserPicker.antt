-- ===== src/UserPicker.antt =====
-- simulator/user_picker.py: WeightedUserPicker, which draws a user id from its window of active users.
-- What the generator draws is an argument; the refresh that `pick` schedules runs later.
use fraud_forecast.Base.{
  ℕ, zero, suc, ◌+◌, ◌-◌, ◌*◌, ◌/◌, ◌%◌, max, Bool, true, false, not, ◌&&◌, Option, none, some,
  List, [], ◌∷◌, String, length, get_elem?, leb, if◌then◌else◌,
}
use fraud_forecast.Base.Float.{Floats}
pub mod Member
mod Tests

-- Whether an id is in `_buffer_set`, which `refresh` builds from the buffer.
abbrev pub in_buffer : Discrete String → String → List String → Bool
in_buffer eq user_id [] = false
in_buffer eq user_id (u ∷ us) = elim (eq u user_id) [
  | yes _ ↦ true
  | no _ ↦ in_buffer eq user_id us
]

-- The fields of the picker; `_buffer_set` is the set of `_buffer`.
pub record WeightedUserPicker : Type 0 where
  pub refresh_every : ℕ
  pub pick_count : ℕ
  pub buffer : List String
  pub heavy_users_cache : List String
  pub very_active_users_cache : List String

-- `refresh`, on what the two sets of Redis, sorted, and the query give.
unfoldable pub refresh :
    (records heavy very_active : List String) → WeightedUserPicker → WeightedUserPicker
refresh records heavy very_active picker = record picker {
  buffer = records;
  heavy_users_cache = heavy;
  very_active_users_cache = very_active;
}

-- The floats of `random()` at the two tests, and the numbers of the draws that follow.
pub record PickDraws (Float : Type 0) : Type 0 where
  pub very_active_roll : Float
  pub branch_roll : Float
  pub very_active_draw : ℕ
  pub heavy_draw : ℕ
  pub recency_draw : ℕ
  pub uniform_draw : ℕ

-- `rng.choice(xs)` and `xs[rng.randrange(n)]`: the entry at the draw below the bound.
abbrev pub entry : List String → (bound draw : ℕ) → Option String
entry xs zero draw = none
entry xs (suc n) draw = get_elem? xs (draw % suc n)

-- `_pick_very_active_user` and `_pick_heavy_user`
unfoldable pub pick_tier : Discrete String → List String → List String → ℕ → Option String
pick_tier eq buffer users draw = elim (entry users (length users) draw) [
  | none ↦ none
  | some user_id ↦ if in_buffer eq user_id buffer then some user_id else none
]

unfoldable pub pick_uniform_user : List String → ℕ → Option String
pick_uniform_user buffer draw = entry buffer (length buffer) draw

-- `pick is not None and pick in self._buffer_set`, or else the other pick.
abbrev pub kept_or : Discrete String → List String → Option String → Option String → Option String
kept_or eq buffer none other = other
kept_or eq buffer (some user_id) other = if in_buffer eq user_id buffer then some user_id else other

abbrev pub is_empty : List String → Bool
is_empty [] = true
is_empty (u ∷ us) = false

abbrev pub counted_if : Bool → WeightedUserPicker → Bool × WeightedUserPicker
counted_if true picker = (true, record picker { pick_count = 0 })
counted_if false picker = (false, record picker { pick_count = picker.pick_count + 1 })

-- The count of `pick`, and whether it schedules a refresh.
unfoldable pub count_pick : WeightedUserPicker → Bool × WeightedUserPicker
count_pick picker = counted_if (leb picker.refresh_every (picker.pick_count + 1)) picker

module _ (eq : Discrete String) (F : Floats) (sixty_percent : ℕ → ℕ) where
  open F use {Float, lit, lt}

  -- `max(1, int(len(self._buffer) * 0.60))`, where `sixty_percent n` is `int(n * 0.60)`.
  abbrev pub recency_window : ℕ → ℕ
  recency_window size = max 1 (sixty_percent size)

  unfoldable pub pick_recency_user : List String → ℕ → Option String
  pick_recency_user buffer draw = entry buffer (recency_window (length buffer)) draw

  -- The 60/30/10 split.
  unfoldable pub pick_branch : WeightedUserPicker → PickDraws Float → Option String
  pick_branch picker draws =
      let uniform = pick_uniform_user picker.buffer draws.uniform_draw in
      let heavy = pick_tier eq picker.buffer picker.heavy_users_cache draws.heavy_draw in
      if lt draws.branch_roll (lit 60 100)
      then pick_recency_user picker.buffer draws.recency_draw
      else if lt draws.branch_roll (lit 90 100)
      then (if is_empty picker.heavy_users_cache
          then uniform
          else kept_or eq picker.buffer heavy uniform)
      else uniform

  -- The user that `pick` returns; `none` is its RuntimeError.
  unfoldable pub picked : WeightedUserPicker → PickDraws Float → Option String
  picked picker draws =
      let tier = pick_tier eq picker.buffer picker.very_active_users_cache draws.very_active_draw in
      let other = pick_branch picker draws in
      if is_empty picker.buffer
      then none
      else if not (is_empty picker.very_active_users_cache) && lt draws.very_active_roll (lit 5 100)
      then kept_or eq picker.buffer tier other
      else other

  unfoldable pub pick :
      WeightedUserPicker → PickDraws Float → Option String × Bool × WeightedUserPicker
  pick picker draws =
      let (scheduled, counted) = count_pick picker in (picked counted draws, scheduled, counted)
