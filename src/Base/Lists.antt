-- ===== src/Base/Lists.antt =====
-- Lists measured and indexed by native numbers, under the library's names.
use Prim.Native.Nat.{ℕ, zero, suc, ◌+◌}
use mathlib.Core.Path.{◌≡◌, refl, sym, subst}
use mathlib.Core.Logic.{◌⊎◌, inl, inr}
use mathlib.Core.Bool.{Bool, true, false, ◌||◌}
use mathlib.Core.List.{List, [], ◌∷◌, ◌++◌, map}
use mathlib.Core.Option.{Option, none, some}
use native.Mathlib.Omega.{arith}
use fraud_forecast.Base.Tests.{◌==◌, if◌then◌else◌}

module _ {ℓ} {A : Type ℓ} where
  abbrev pub length : List A → ℕ
  length [] = 0
  length (x ∷ xs) = suc (length xs)

  abbrev pub get_elem? : List A → ℕ → Option A
  get_elem? [] i = none
  get_elem? (x ∷ xs) zero = some x
  get_elem? (x ∷ xs) (suc i) = get_elem? xs i

  pub length-append : (xs ys : List A) → length (xs ++ ys) ≡ length xs + length ys
  length-append [] ys = omega arith
  length-append (x ∷ xs) ys = omega (arith, length-append xs ys)

  -- `sum(f(x) for x in xs)`
  abbrev pub sum_by : (A → ℕ) → List A → ℕ
  sum_by f [] = 0
  sum_by f (x ∷ xs) = f x + sum_by f xs

  pub sum_by-append : (f : A → ℕ) (xs ys : List A) → sum_by f (xs ++ ys) ≡ sum_by f xs + sum_by f ys
  sum_by-append f [] ys = omega arith
  sum_by-append f (x ∷ xs) ys = omega (arith, sum_by-append f xs ys)

  -- `[x for x in xs if p(x)]`
  abbrev pub filter_by : (A → Bool) → List A → List A
  filter_by p [] = []
  filter_by p (x ∷ xs) = if p x then x ∷ filter_by p xs else filter_by p xs

  -- A predicate of every entry.
  abbrev pub All {κ} : (A → Type κ) → List A → Type κ
  All P [] = Unit
  All P (x ∷ xs) = P x × All P xs

  pub All-append {κ} : (P : A → Type κ) (xs ys : List A) → All P xs → All P ys → All P (xs ++ ys)
  All-append P [] ys hx hy = hy
  All-append P (x ∷ xs) ys hx hy = (hx.0, All-append P xs ys hx.1 hy)

  pub All-filter_by {κ} :
      (P : A → Type κ) (p : A → Bool) (xs : List A) → All P xs → All P (filter_by p xs)
  All-filter_by P p [] hs = tt
  All-filter_by P p (x ∷ xs) (here, rest) = split (p x) (All-filter_by P p xs rest)
    where
      split :
          (b : Bool)
          → All P (filter_by p xs)
          → All P (if b then x ∷ filter_by p xs else filter_by p xs)
      split true ih = (here, ih)
      split false ih = ih

pub All-map {ℓ κ μ ν} :
    {A : Type ℓ} {B : Type κ} (P : A → Type μ) (Q : B → Type ν) (f : A → B) (xs : List A)
    → ((a : A) → P a → Q (f a))
    → All P xs
    → All Q (map f xs)
All-map P Q f [] h hs = tt
All-map P Q f (x ∷ xs) h (here, rest) = (h x here, All-map P Q f xs h rest)

module _ {A : Type 0} where
  -- `a` is one of the entries, with its place.
  abbrev pub Among : A → List A → Type 0
  Among a [] = ⊥
  Among a (x ∷ xs) = (x ≡ a) ⊎ Among a xs

  pub All-Among : (P : A → Type 0) (a : A) (xs : List A) → All P xs → Among a xs → P a
  All-Among P a [] h m = absurd m
  All-Among P a (x ∷ xs) h (inl e) = subst P e h.0
  All-Among P a (x ∷ xs) h (inr m) = All-Among P a xs h.1 m

  pub Among-All : (P : A → Type 0) (xs : List A) → ((a : A) → Among a xs → P a) → All P xs
  Among-All P [] h = tt
  Among-All P (x ∷ xs) h = (h x (inl refl), Among-All P xs (λ a m. h a (inr m)))

  pub Among-append_left : (a : A) (xs ys : List A) → Among a xs → Among a (xs ++ ys)
  Among-append_left a [] ys m = absurd m
  Among-append_left a (x ∷ xs) ys (inl e) = inl e
  Among-append_left a (x ∷ xs) ys (inr m) = inr (Among-append_left a xs ys m)

  pub Among-append_right : (a : A) (xs ys : List A) → Among a ys → Among a (xs ++ ys)
  Among-append_right a [] ys m = m
  Among-append_right a (x ∷ xs) ys m = inr (Among-append_right a xs ys m)

  pub Among-append : (a : A) (xs ys : List A) → Among a (xs ++ ys) → Among a xs ⊎ Among a ys
  Among-append a [] ys m = inr m
  Among-append a (x ∷ xs) ys (inl e) = inl (inl e)
  Among-append a (x ∷ xs) ys (inr m) = elim (Among-append a xs ys m) [
    | inl l ↦ inl (inr l)
    | inr r ↦ inr r
  ]

module _ {A B : Type 0} (f : A → List B) where
  -- `[y for x in xs for y in f(x)]`
  abbrev pub flat_map : List A → List B
  flat_map [] = []
  flat_map (x ∷ xs) = f x ++ flat_map xs

  pub Among-flat_map :
      (xs : List A) (b : B) (a : A) → Among a xs → Among b (f a) → Among b (flat_map xs)
  Among-flat_map [] b a m n = absurd m
  Among-flat_map (x ∷ xs) b a (inl e) n =
      Among-append_left b (f x) _ (subst (λ y. Among b (f y)) (sym e) n)
  Among-flat_map (x ∷ xs) b a (inr m) n = Among-append_right b (f x) _ (Among-flat_map xs b a m n)

  pub flat_map-Among :
      (xs : List A) (b : B) → Among b (flat_map xs) → (a : A) × Among a xs × Among b (f a)
  flat_map-Among [] b m = absurd m
  flat_map-Among (x ∷ xs) b m = elim (Among-append b (f x) (flat_map xs) m) [
    | inl here ↦ (x, inl refl, here)
    | inr there ↦ let (a, am, bm) = flat_map-Among xs b there in (a, inr am, bm)
  ]

-- `x in xs` on numbers
abbrev pub elem : ℕ → List ℕ → Bool
elem x [] = false
elem x (y ∷ ys) = x == y || elem x ys

-- Membership by a decision, which computes on a concrete list.
module _ {A : Type 0} (eq : Discrete A) where
  abbrev pub mem_by : A → List A → Bool
  mem_by a [] = false
  mem_by a (x ∷ xs) = elim (eq x a) [ yes _ ↦ true | no _ ↦ mem_by a xs ]

  pub mem_by-Among : (a : A) (xs : List A) → mem_by a xs ≡ true → Among a xs
  mem_by-Among a [] h = absurd (cc h)
  mem_by-Among a (x ∷ xs) h = split (eq x a) (mem_by-Among a xs) h
    where
      split :
          (d : Dec (x ≡ a))
          → (mem_by a xs ≡ true → Among a xs)
          → elim d [ yes _ ↦ true | no _ ↦ mem_by a xs ] ≡ true
          → Among a (x ∷ xs)
      split (yes p) later h' = inl p
      split (no q) later h' = inr (later h')
