-- ===== src/UserPicker/Member.antt =====
-- Whom `pick` of simulator/user_picker.py returns, and when it schedules a refresh.
use fraud_forecast.Base.{
  ℕ, zero, suc, ◌+◌, ◌*◌, ◌%◌, ◌≤◌, ◌<◌, ◌≡◌, refl, not, ◌&&◌, Bool, true, false, Option, none,
  some, List, [], ◌∷◌, String, length, get_elem?, Among, arith, if_ind, leb, inl, inr, ap, ◌∙◌,
  subst, sym, if◌then◌else◌,
}
use native.Mathlib.Nat.{mod-lt}
use fraud_forecast.Base.Float.{Floats}
use fraud_forecast.UserPicker.{
  in_buffer, WeightedUserPicker, PickDraws, entry, pick_tier, pick_uniform_user, kept_or, is_empty,
  recency_window, pick_recency_user, pick_branch, picked, counted_if, count_pick, pick,
}

-- An id was picked, and it is in the buffer.
abbrev pub PicksFrom : List String → Option String → Type 0
PicksFrom buffer o = (user_id : String) × (o ≡ some user_id) × Among user_id buffer

get_elem-PicksFrom : (xs : List String) (i : ℕ) → i < length xs → PicksFrom xs (get_elem? xs i)
get_elem-PicksFrom [] i h = absurd (omega arith)
get_elem-PicksFrom (x ∷ xs) zero h = (x, refl, inl refl)
get_elem-PicksFrom (x ∷ xs) (suc i) h =
    let (u, e, m) = get_elem-PicksFrom xs i (omega arith) in (u, e, inr m)

entry-PicksFrom :
    (xs : List String) (bound draw : ℕ)
    → 1 ≤ bound
    → bound ≤ length xs
    → PicksFrom xs (entry xs bound draw)
entry-PicksFrom xs zero draw h1 h2 = absurd (omega arith)
entry-PicksFrom xs (suc n) draw h1 h2 =
    get_elem-PicksFrom xs (draw % suc n) (omega (arith, mod-lt draw {m = suc n} (omega arith)))

in_buffer-Among :
    (eq : Discrete String) (u : String) (xs : List String) → in_buffer eq u xs ≡ true → Among u xs
in_buffer-Among eq u [] h = absurd (cc h)
in_buffer-Among eq u (x ∷ xs) h = split (eq x u) (in_buffer-Among eq u xs) h
  where
    split :
        (d : Dec (x ≡ u))
        → (in_buffer eq u xs ≡ true → Among u xs)
        → elim d [ yes _ ↦ true | no _ ↦ in_buffer eq u xs ] ≡ true
        → Among u (x ∷ xs)
    split (yes p) later h' = inl p
    split (no q) later h' = inr (later h')

kept_or-PicksFrom :
    (eq : Discrete String) (buffer : List String) (o other : Option String)
    → PicksFrom buffer other
    → PicksFrom buffer (kept_or eq buffer o other)
kept_or-PicksFrom eq buffer none other h = h
kept_or-PicksFrom eq buffer (some u) other h = split (in_buffer eq u buffer) refl
  where
    split : (b : Bool) → in_buffer eq u buffer ≡ b → PicksFrom buffer (if b then some u else other)
    split true e = (u, refl, in_buffer-Among eq u buffer e)
    split false e = h

nonempty : (xs : List String) → is_empty xs ≡ false → 1 ≤ length xs
nonempty [] h = absurd (cc h)
nonempty (x ∷ xs) h = omega arith

count_pick_buffer : (picker : WeightedUserPicker) → (count_pick picker).1.buffer ≡ picker.buffer
unfolding count_pick
count_pick_buffer picker = ground arith

-- The picks so far, by the refreshes that they scheduled and the count, which is below the bound.
pub record Counted (picks refreshes : ℕ) (picker : WeightedUserPicker) : Type 0 where
  pub total : picks ≡ refreshes * picker.refresh_every + picker.pick_count
  pub below : picker.pick_count < picker.refresh_every

count_pick-Counted :
    (picker : WeightedUserPicker) (picks refreshes : ℕ)
    → Counted picks refreshes picker
    → Counted
        (suc picks)
        (if (count_pick picker).0 then suc refreshes else refreshes)
        (count_pick picker).1
unfolding count_pick
count_pick-Counted picker picks refreshes h =
    split (leb picker.refresh_every (picker.pick_count + 1)) refl h.total h.below
  where
    split :
        (b : Bool)
        → leb picker.refresh_every (picker.pick_count + 1) ≡ b
        → picks ≡ refreshes * picker.refresh_every + picker.pick_count
        → picker.pick_count < picker.refresh_every
        → Counted
            (suc picks)
            (if (counted_if b picker).0 then suc refreshes else refreshes)
            (counted_if b picker).1
    split true e total below = record { total = grind arith; below = omega arith }
    split false e total below = record { total = omega arith; below = ground arith }

module _ (eq : Discrete String) (F : Floats) (sixty_percent : ℕ → ℕ) where
  pick_branch-PicksFrom :
      (picker : WeightedUserPicker) (draws : PickDraws F.Float)
      → sixty_percent (length picker.buffer) ≤ length picker.buffer
      → 1 ≤ length picker.buffer
      → PicksFrom picker.buffer (pick_branch eq F sixty_percent picker draws)
  unfolding pick_branch pick_recency_user pick_uniform_user
  pick_branch-PicksFrom picker draws small some_left =
      let uniform =
        entry-PicksFrom picker.buffer (length picker.buffer) draws.uniform_draw some_left
          (omega arith) in
      let heavy = pick_tier eq picker.buffer picker.heavy_users_cache draws.heavy_draw in
      if_ind (PicksFrom picker.buffer) (F.lt draws.branch_roll (F.lit 60 100)) _ _
        (entry-PicksFrom picker.buffer (recency_window eq F sixty_percent (length picker.buffer))
          draws.recency_draw (omega arith) (omega arith))
        (if_ind (PicksFrom picker.buffer) (F.lt draws.branch_roll (F.lit 90 100)) _ _
          (if_ind (PicksFrom picker.buffer) (is_empty picker.heavy_users_cache) _ _ uniform
            (kept_or-PicksFrom eq picker.buffer heavy _ uniform))
          uniform)

  picked-PicksFrom :
      (picker : WeightedUserPicker) (draws : PickDraws F.Float)
      → sixty_percent (length picker.buffer) ≤ length picker.buffer
      → is_empty picker.buffer ≡ false
      → PicksFrom picker.buffer (picked eq F sixty_percent picker draws)
  unfolding picked
  picked-PicksFrom picker draws small full =
      let other = pick_branch-PicksFrom picker draws small (nonempty picker.buffer full) in
      rw (full, picked)
        (if_ind (PicksFrom picker.buffer)
          (not (is_empty picker.very_active_users_cache)
            && F.lt draws.very_active_roll (F.lit 5 100))
          _ _
          (kept_or-PicksFrom eq picker.buffer
            (pick_tier eq picker.buffer picker.very_active_users_cache draws.very_active_draw) _
            other)
          other)

  -- Where the buffer is not empty and sixty percent of its length is at most its length, `pick` does
  -- not raise, and whatever is drawn it returns a user of the buffer.
  pub pick-PicksFrom :
      (picker : WeightedUserPicker) (draws : PickDraws F.Float)
      → sixty_percent (length picker.buffer) ≤ length picker.buffer
      → is_empty picker.buffer ≡ false
      → PicksFrom picker.buffer (pick eq F sixty_percent picker draws).0
  unfolding pick
  pick-PicksFrom picker draws small full =
      let same = count_pick_buffer picker in
      subst (λ xs. PicksFrom xs (picked eq F sixty_percent (count_pick picker).1 draws)) same
        (picked-PicksFrom (count_pick picker).1 draws
          (subst (λ xs. sixty_percent (length xs) ≤ length xs) (sym same) small)
          (ap is_empty same ∙ full))

  -- Some picks in a row, with the refreshes that they schedule.
  pub data Picks (picker : WeightedUserPicker) : ℕ → ℕ → WeightedUserPicker → Type 0 where
    none_yet : Picks picker 0 0 picker
    one_more :
        {picks refreshes : ℕ} {mid : WeightedUserPicker} (draws : PickDraws F.Float)
        → Picks picker picks refreshes mid
        → Picks picker
            (suc picks)
            (if (pick eq F sixty_percent mid draws).1 then suc refreshes else refreshes)
            (pick eq F sixty_percent mid draws).2

  -- From a count of nothing and a positive bound, every `refresh_every`-th pick schedules a refresh and
  -- no other does: the picks are the refreshes times the bound and the count, which is below it.
  pub Picks-Counted :
      {picker last : WeightedUserPicker} {picks refreshes : ℕ}
      → picker.pick_count ≡ 0
      → 1 ≤ picker.refresh_every
      → Picks picker picks refreshes last
      → Counted picks refreshes last
  unfolding pick
  Picks-Counted zero_count bound none_yet = record { total = omega arith; below = omega arith }
  Picks-Counted zero_count bound (one_more draws before) =
      count_pick-Counted _ _ _ (Picks-Counted zero_count bound before)
