-- ===== src/Registry/Names.antt =====
-- The names that ModelRegistry.save of ml/registry/model_registry.py gives are those that its VERSION_RE matches.
use Prim.Native.String.append
use Prim.Native.String.{◌++◌}
use Prim.Native.Char.{code}
use fraud_forecast.Base.{
  ℕ, zero, suc, Bool, true, false, ◌||◌, some, List, [], ◌∷◌, String, length, All, ◌≡◌, refl, ap,
  ◌∙◌, ◌≤◌, subst, arith,
}
use fraud_forecast.Base.{◌++◌ as ◌+++◌, ◌==◌ as equals}
use fraud_forecast.Registry.{codes, eat, then_eat, at_end, is_hex, stem, is_version}
use fraud_forecast.Registry.Save.{Stamp, first, version_name}

-- The text has `n` characters, each of which passes the test.
abbrev pub Spelled : (ℕ → Bool) → ℕ → String → Type 0
Spelled test n text = (length (codes text) ≡ n) × All (λ c. test c ≡ true) (codes text)

codes-append : (s t : String) → codes (s ++ t) ≡ codes s +++ codes t
codes-append String.[] t = ap codes (append.nil t)
codes-append (String.◌∷◌ c s) t =
    ap codes (append.cons c s t) ∙ ap (λ cs. code c ∷ cs) (codes-append s t)

eat-append :
    (test : ℕ → Bool) (cs rest : List ℕ)
    → All (λ c. test c ≡ true) cs
    → eat test (length cs) (cs +++ rest) ≡ some rest
eat-append test [] rest h = refl
eat-append test (c ∷ cs) rest (here, later) = rw here (eat-append test cs rest later)

eaten :
    (test : ℕ → Bool) (n : ℕ) (s t : String)
    → Spelled test n s
    → eat test n (codes (s ++ t)) ≡ some (codes t)
eaten test n s t (long, all) =
    subst (λ k. eat test k (codes (s ++ t)) ≡ some (codes t)) long
      (ap (eat test (length (codes s))) (codes-append s t)
        ∙ eat-append test (codes s) (codes t) all)

or_true : (a b : Bool) → b ≡ true → (a || b) ≡ true
or_true true b h = refl
or_true false b h = h

eat_whole :
    (test : ℕ → Bool) (cs : List ℕ)
    → All (λ c. test c ≡ true) cs
    → eat test (length cs) cs ≡ some []
eat_whole test [] h = refl
eat_whole test (c ∷ cs) (here, later) = rw here (eat_whole test cs later)

eaten_whole :
    (test : ℕ → Bool) (n : ℕ) (s : String) → Spelled test n s → eat test n (codes s) ≡ some []
eaten_whole test n s (long, all) =
    subst (λ k. eat test k (codes s) ≡ some []) long (eat_whole test (codes s) all)

stem-version_name :
    (decimal : ℕ → Bool) (now : Stamp) (uuid_hex : String)
    → Spelled decimal 8 now.ymd
    → Spelled decimal 6 now.hms
    → stem decimal (version_name now uuid_hex) ≡ some (codes ("_" ++ first 8 uuid_hex))
unfolding stem version_name
stem-version_name decimal now uuid_hex ymd hms =
    let tail = "_" ++ first 8 uuid_hex in
    let time = now.hms ++ tail in
    ap (λ o. then_eat decimal 6 (then_eat (equals b'_') 1 (then_eat decimal 8 o)))
      (eaten (equals b'v') 1 "v" (now.ymd ++ ("_" ++ time)) (refl, (refl, tt)))
    ∙ ap (λ o. then_eat decimal 6 (then_eat (equals b'_') 1 o))
        (eaten decimal 8 now.ymd ("_" ++ time) ymd)
    ∙ ap (then_eat decimal 6) (eaten (equals b'_') 1 "_" time (refl, (refl, tt)))
    ∙ eaten decimal 6 now.hms tail hms

first-Spelled :
    (test : ℕ → Bool) (n : ℕ) (s : String)
    → n ≤ length (codes s)
    → All (λ c. test c ≡ true) (codes s)
    → Spelled test n (first n s)
first-Spelled test zero s h all = (refl, tt)
first-Spelled test (suc n) String.[] h all = absurd (omega (arith, h))
first-Spelled test (suc n) (String.◌∷◌ c s) h (here, later) =
    let (long, rest) = first-Spelled test n s (omega (arith, h)) later in
    (ap suc long, (here, rest))

pub is_version-version_name :
    (decimal : ℕ → Bool) (now : Stamp) (uuid_hex : String)
    → Spelled decimal 8 now.ymd
    → Spelled decimal 6 now.hms
    → Spelled is_hex 32 uuid_hex
    → is_version decimal (version_name now uuid_hex) ≡ true
unfolding is_version
is_version-version_name decimal now uuid_hex ymd hms hexes =
    let hex_end : at_end
          (then_eat is_hex 8 (then_eat (equals b'_') 1 (stem decimal (version_name now uuid_hex))))
        ≡ true =
      ap (λ o. at_end (then_eat is_hex 8 (then_eat (equals b'_') 1 o)))
        (stem-version_name decimal now uuid_hex ymd hms)
      ∙ ap (λ o. at_end (then_eat is_hex 8 o))
          (eaten (equals b'_') 1 "_" (first 8 uuid_hex) (refl, (refl, tt)))
      ∙ ap at_end (
          eaten_whole is_hex 8 (first 8 uuid_hex)
            (first-Spelled is_hex 8 uuid_hex (omega (arith, hexes.0)) hexes.1)) in
    or_true _ _ hex_end
