-- ===== src/Base/Float.antt =====
-- Python floats, which this development does not define: a type with the operations that the code
-- uses. Definitions over floats take a `Floats`, and a theorem names the laws that it needs.
use Prim.Native.Nat.{ℕ, suc, ◌+◌, ◌-◌, ◌*◌, ◌/◌}
use mathlib.Core.Bool.{Bool}
use fraud_forecast.Base.Tests.{ltb, leb}

pub record Floats : Type 1 where
  pub Float : Type 0
  -- `lit n d` is the literal with the value n / d.
  pub lit : ℕ → ℕ → Float
  pub add : Float → Float → Float
  pub sub : Float → Float → Float
  pub mul : Float → Float → Float
  -- `a < b` and `a <= b`
  pub lt : Float → Float → Bool
  pub le : Float → Float → Bool

-- The draws that a `random.Random` still has to give.
abbrev pub Draws : Type 0 → Type 0
Draws A = ℕ → A

abbrev pub next_draws : {A : Type 0} → Draws A → Draws A
next_draws rng n = rng (suc n)

-- `rng.uniform(a, b)` on the draw `r`: `a + (b - a) * random()`.
abbrev pub uniform : (F : Floats) → F.Float → F.Float → F.Float → F.Float
uniform F a b r = F.add a (F.mul (F.sub b a) r)

-- An instance for runs: millionths, rounded down.
abbrev pub millionths : Floats
millionths = record {
  Float = ℕ;
  lit = λ n d. n * 1_000_000 / d;
  add = λ a b. a + b;
  sub = λ a b. a - b;
  mul = λ a b. a * b / 1_000_000;
  lt = ltb;
  le = leb;
}
