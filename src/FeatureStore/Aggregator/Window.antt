-- ===== src/FeatureStore/Aggregator/Window.antt =====
-- What feature_store/aggregator.py reads of a sorted set: counts, sums of spend and the age of the last
-- order. Scores are times and not negative, so a window that begins before the epoch begins at it.
use fraud_forecast.Base.{ℕ, ◌-◌, ◌/◌, ◌*◌, Option, none, some, List, [], ◌∷◌, String}
use fraud_forecast.Base.Int.{ℤ, pos, ◌+ℤ◌}
use fraud_forecast.FeatureStore.Aggregator.Redis.{Member, plain, priced, ZsetKey, Redis}

abbrev pub one_hour_seconds : ℕ
one_hour_seconds = 60 * 60

abbrev pub twenty_four_hours_seconds : ℕ
twenty_four_hours_seconds = 24 * 60 * 60

-- A text that is no number is passed over.
abbrev pub add_pence : Option ℤ → ℤ → ℤ
add_pence none total = total
add_pence (some pence) total = pence +ℤ total

-- `int(text)`; `none` is its ValueError.
module _ (parse_int : String → Option ℤ) where
  -- `int(pence)`, for the part of a member after its last colon; the text of an id has no colon.
  abbrev pub member_pence : Member → Option ℤ
  member_pence (plain text) = parse_int text
  member_pence (priced order_id pence) = some pence

  abbrev pub sum_spend_from_members : List Member → ℤ
  sum_spend_from_members [] = pos 0
  sum_spend_from_members (m ∷ ms) = add_pence (member_pence m) (sum_spend_from_members ms)

-- `_last_order_age_minutes`
abbrev pub last_order_age_minutes : List (Member × ℕ) → ℕ → Option ℕ
last_order_age_minutes [] now_ts = none
last_order_age_minutes ((m, last_order_ts) ∷ _) now_ts = some ((now_ts - last_order_ts) / 60)

module _ (R : Redis) where
  open R use {Db, zcount, zrangebyscore}

  -- `zcount(key, now_ts - seconds, now_ts)`
  abbrev pub count_in : ZsetKey → ℕ → ℕ → Db → ℤ
  count_in z seconds now_ts db = pos (zcount z (now_ts - seconds) now_ts db)

  abbrev pub spend_in : (String → Option ℤ) → ZsetKey → ℕ → ℕ → Db → ℤ
  spend_in parse_int z seconds now_ts db =
      sum_spend_from_members parse_int (zrangebyscore z (now_ts - seconds) now_ts db)
