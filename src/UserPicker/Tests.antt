-- ===== src/UserPicker/Tests.antt =====
-- Runs of the user picker over a buffer of two.
use fraud_forecast.Base.{ℕ, ◌*◌, ◌/◌, ◌≡◌, refl, arith, some, [], ◌∷◌}
use fraud_forecast.Base.Float.{millionths}
use fraud_forecast.FeatureStore.Aggregator.Memory.{String-discrete}
use fraud_forecast.UserPicker.{
  WeightedUserPicker, PickDraws, pick, count_pick, picked, pick_tier, pick_branch,
  pick_recency_user, pick_uniform_user,
}
use fraud_forecast.UserPicker.Member.{
  PicksFrom, pick-PicksFrom, Picks, none_yet, one_more, Counted, Picks-Counted,
}

abbrev picker : WeightedUserPicker
picker = record {
  refresh_every = 2;
  pick_count = 0;
  buffer = "a" ∷ "b" ∷ [];
  heavy_users_cache = "gone" ∷ [];
  very_active_users_cache = [];
}

-- A heavy draw of a user who has left the buffer.
abbrev draws : PickDraws ℕ
draws = record {
  very_active_roll = 0;
  branch_roll = 700_000;
  very_active_draw = 0;
  heavy_draw = 0;
  recency_draw = 0;
  uniform_draw = 3;
}

abbrev sixty : ℕ → ℕ
sixty n = n * 60 / 100

falls_back : (pick String-discrete millionths sixty picker draws).0 ≡ some "b"
unfolding pick count_pick picked pick_tier pick_branch pick_recency_user pick_uniform_user
    String-discrete
falls_back = refl

pick-PicksFrom_example :
    PicksFrom ("a" ∷ "b" ∷ []) (pick String-discrete millionths sixty picker draws).0
pick-PicksFrom_example =
    pick-PicksFrom String-discrete millionths sixty picker draws (omega arith) refl

twice :
    Picks String-discrete millionths sixty picker 2 1
      (pick String-discrete millionths sixty
        (pick String-discrete millionths sixty picker draws).2
        draws).2
unfolding pick count_pick
twice = one_more draws (one_more draws none_yet)

Picks-Counted_example :
    Counted 2 1
      (pick String-discrete millionths sixty
        (pick String-discrete millionths sixty picker draws).2
        draws).2
Picks-Counted_example = Picks-Counted String-discrete millionths sixty refl (omega arith) twice
