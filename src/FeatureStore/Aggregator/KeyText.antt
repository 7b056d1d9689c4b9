-- ===== src/FeatureStore/Aggregator/KeyText.antt =====
-- How the cleanup of feature_store/aggregator.py reads the entity out of the text of a sorted set's key. A
-- text is the list of its characters' numbers.
use fraud_forecast.Base.{
  ℕ, zero, suc, ◌-◌, ◌≡◌, ◌≢◌, refl, sym, ap, ◌∙◌, subst, true, false, Bool, not, ◌&&◌, ◌||◌, some,
  none, Option, List, [], ◌∷◌, ◌++◌, length, length-append, All, if◌then◌else◌, arith, leb, ◌==◌,
}

abbrev pub Chars : Type 0
Chars = List ℕ

abbrev pub text_eq : Chars → Chars → Bool
text_eq [] [] = true
text_eq [] (y ∷ ys) = false
text_eq (x ∷ xs) [] = false
text_eq (x ∷ xs) (y ∷ ys) = x == y && text_eq xs ys

abbrev pub take : ℕ → Chars → Chars
take zero xs = []
take (suc n) [] = []
take (suc n) (x ∷ xs) = x ∷ take n xs

abbrev pub drop : ℕ → Chars → Chars
drop zero xs = xs
drop (suc n) [] = []
drop (suc n) (x ∷ xs) = drop n xs

abbrev pub starts_with : Chars → Chars → Bool
starts_with value prefix = text_eq (take (length prefix) value) prefix

abbrev pub ends_with : Chars → Chars → Bool
ends_with value suffix =
    leb (length suffix) (length value) && text_eq (drop (length value - length suffix) value) suffix

unfoldable pub strip_prefix : Chars → Chars → Chars
strip_prefix value prefix = if starts_with value prefix then drop (length prefix) value else value

-- `value[: -len(suffix)]` is empty for an empty suffix.
unfoldable pub strip_suffix : Chars → Chars → Chars
strip_suffix value suffix =
    if ends_with value suffix
    then (if length suffix == 0 then [] else take (length value - length suffix) value)
    else value

-- `text.partition(":")`, without the colon.
abbrev pub partition : Chars → Chars × Chars
partition [] = ([], [])
partition (c ∷ cs) = let rest = partition cs in if c == b':' then ([], cs) else (c ∷ rest.0, rest.1)

abbrev pub fs_prefix : Chars
fs_prefix = b'f' ∷ b's' ∷ b':' ∷ []

abbrev pub unless_empty : Chars × Chars → Option (Chars × Chars)
unless_empty (entity_type, []) = none
unless_empty (entity_type, c ∷ cs) = some (entity_type, c ∷ cs)

unfoldable pub extract_entity_from_zset_key : Chars → Chars → Option (Chars × Chars)
extract_entity_from_zset_key key suffix =
    if not (starts_with key fs_prefix) || not (ends_with key suffix)
    then none
    else unless_empty (partition (strip_suffix (strip_prefix key fs_prefix) suffix))

text_eq_refl : (xs : Chars) → text_eq xs xs ≡ true
text_eq_refl [] = refl
text_eq_refl (x ∷ xs) = let ih = text_eq_refl xs in ground arith

take-append : (xs ys : Chars) → take (length xs) (xs ++ ys) ≡ xs
take-append [] ys = refl
take-append (x ∷ xs) ys = ap (λ zs. x ∷ zs) (take-append xs ys)

drop-append : (xs ys : Chars) → drop (length xs) (xs ++ ys) ≡ ys
drop-append [] ys = refl
drop-append (x ∷ xs) ys = drop-append xs ys

before_suffix : (xs ys : Chars) → length (xs ++ ys) - length ys ≡ length xs
before_suffix xs ys = omega (arith, length-append xs ys)

ends_with-append : (xs ys : Chars) → ends_with (xs ++ ys) ys ≡ true
ends_with-append xs ys =
    let dropped = ap (λ n. drop n (xs ++ ys)) (before_suffix xs ys) ∙ drop-append xs ys in
    let eq = ap (λ zs. text_eq zs ys) dropped ∙ text_eq_refl ys in
    let long = length-append xs ys in ground arith

strip_suffix-append : (xs : Chars) (y : ℕ) (ys : Chars) → strip_suffix (xs ++ y ∷ ys) (y ∷ ys) ≡ xs
unfolding strip_suffix
strip_suffix-append xs y ys =
    let ends = ends_with-append xs (y ∷ ys) in
    let taken =
      ap (λ n. take n (xs ++ y ∷ ys)) (before_suffix xs (y ∷ ys)) ∙ take-append xs (y ∷ ys) in
    ground arith

partition-append :
    (entity_type id : Chars)
    → All (λ c. c ≢ b':') entity_type
    → partition (entity_type ++ b':' ∷ id) ≡ (entity_type, id)
partition-append [] id h = refl
partition-append (c ∷ cs) id (ne, rest) = let ih = partition-append cs id rest in ground arith

-- The entity and the id that a key was built from come back, for an entity without a colon, an id that
-- is not empty and may hold colons, and a suffix that is not empty.
pub extract_entity_from_zset_key-append :
    (entity_type : Chars) (c : ℕ) (id : Chars) (y : ℕ) (suffix : Chars)
    → All (λ c. c ≢ b':') entity_type
    → extract_entity_from_zset_key
        (fs_prefix ++ ((entity_type ++ b':' ∷ c ∷ id) ++ y ∷ suffix))
        (y ∷ suffix)
      ≡ some (entity_type, c ∷ id)
unfolding extract_entity_from_zset_key strip_prefix
extract_entity_from_zset_key-append entity_type c id y suffix plain =
    let fragment = entity_type ++ b':' ∷ c ∷ id in
    let ends = ends_with-append (fs_prefix ++ fragment) (y ∷ suffix) in
    let parts =
      ap partition (strip_suffix-append fragment y suffix)
      ∙ partition-append entity_type (c ∷ id) plain in
    subst
      (λ b.
        (if not (starts_with (fs_prefix ++ (fragment ++ y ∷ suffix)) fs_prefix) || not b
          then none
          else unless_empty (partition (strip_suffix (fragment ++ y ∷ suffix) (y ∷ suffix))))
        ≡ some (entity_type, c ∷ id))
      (sym ends) (ap unless_empty parts)
