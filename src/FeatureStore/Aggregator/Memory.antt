-- ===== src/FeatureStore/Aggregator/Memory.antt =====
-- Redis in memory, for runs: the parameters of Aggregator/Redis.antt with their laws.
use fraud_forecast.Base.{
  ap, ◌∙◌, Bool-cases, inl, inr, ℕ, ◌+◌, ◌<◌, ◌≤◌, ◌≡◌, ◌≢◌, refl, Bool, true, false, not, ◌&&◌,
  Option, none, some, List, [], ◌∷◌, String, length, sum_by, filter_by, leb, ltb, ◌==◌, map,
  if◌then◌else◌, arith,
}
use fraud_forecast.Base.Int.{ℤ}
use fraud_forecast.FeatureStore.Keys.{HashKey}
use fraud_forecast.FeatureStore.Aggregator.Redis.{
  ZsetKey, Field, Member, same, between, lookup, or_else, second_last, Field-discrete, Redis, Laws,
}
use text.Mathlib.Text.{◌==◌ as str_eq}
use text.Mathlib.TextEquality.{eq_iff}
use text.Mathlib.TextPositions.{eq_refl}

unfoldable pub String-discrete : Discrete String
String-discrete s t = decide (str_eq s t) refl
  where
    decide : (b : Bool) → str_eq s t ≡ b → Dec (s ≡ t)
    decide true e = yes ((eq_iff s t).0 e)
    decide false e = no (λ p. let q = (eq_iff s t).1 p in cc)

unfoldable pub ZsetKey-discrete : Discrete ZsetKey
ZsetKey-discrete = hlevel (String-discrete)

unfoldable pub HashKey-discrete : Discrete HashKey
HashKey-discrete = hlevel (String-discrete)

abbrev pub Entries : Type 0
Entries = List (Member × ℕ)

-- `deadline` is none for a set that stays.
pub record Bucket : Type 0 where
  pub holds : List String
  pub deadline : Option ℕ

pub record Store : Type 0 where
  pub zsets : ZsetKey → Entries
  pub hashes : HashKey → Field → Option ℤ
  pub buckets : ℕ → Bucket

abbrev pub place : Member × ℕ → Entries → Entries
place (m, s) [] = (m, s) ∷ []
place (m, s) ((n, t) ∷ es) =
    let rest = place (m, s) es in if leb s t then (m, s) ∷ (n, t) ∷ es else (n, t) ∷ rest

abbrev pub without : Member → Entries → Entries
without m es = filter_by (λ e. not (same e.0 m)) es

abbrev has : String → List String → Bool
has id [] = false
has id (x ∷ xs) = if str_eq x id then true else has id xs

abbrev before : ℕ → Option ℕ → Bool
before at none = true
before at (some deadline) = ltb at deadline

abbrev pub at_key {ℓ κ} : {K : Type ℓ} {A : Type κ} → Discrete K → K → A → (K → A) → K → A
at_key eq k a f l = elim (eq l k) [ yes _ ↦ a | no _ ↦ f l ]

abbrev pub memory : Redis
memory = record {
  Db = Store;
  zadd = λ z m s db. record db {
    zsets = at_key ZsetKey-discrete z (place (m, s) (without m (db.zsets z))) db.zsets;
  };
  zcount = λ z low high db. length (filter_by (between low high) (db.zsets z));
  zrangebyscore = λ z low high db. map (λ e. e.0) (filter_by (between low high) (db.zsets z));
  second_newest = λ z db. second_last (db.zsets z);
  hset = λ k mapping db. record db {
    hashes =
        at_key HashKey-discrete k (λ f. or_else (lookup Field-discrete f mapping) (db.hashes k f))
          db.hashes;
  };
  hdel = λ k f db. record db {
    hashes =
        at_key HashKey-discrete k
          (λ g. elim (Field-discrete g f) [ yes _ ↦ none | no _ ↦ db.hashes k g ]) db.hashes;
  };
  hget = λ k f db. db.hashes k f;
  expire = λ k seconds db. db;
  sadd = λ b id at db. record db {
    buckets = λ c.
        if c == b
        then (if before at (db.buckets b).deadline
            then record { holds = id ∷ (db.buckets b).holds; deadline = (db.buckets b).deadline }
            else record { holds = id ∷ []; deadline = none })
        else db.buckets c;
  };
  expire_bucket = λ b seconds at db. record db {
    buckets = λ c.
        if c == b
        then record { holds = (db.buckets b).holds; deadline = some (at + seconds) }
        else db.buckets c;
  };
  sismember = λ b id at db. has id (db.buckets b).holds && before at (db.buckets b).deadline;
}

sum_by-place :
    (f : Member × ℕ → ℕ) (e : Member × ℕ) (es : Entries) → sum_by f (place e es) ≡ f e + sum_by f es
sum_by-place f (m, s) [] = refl
sum_by-place f (m, s) ((n, t) ∷ es) = elim (Bool-cases (leb s t)) [
  | inl h ↦ ground arith
  | inr h ↦ let ih = sum_by-place f (m, s) es in ground arith
]

sum_by-without :
    (f : Member × ℕ → ℕ) (m : Member) (es : Entries)
    → sum_by f (without m es) + sum_by (λ e. if same e.0 m then f e else 0) es ≡ sum_by f es
sum_by-without f m [] = refl
sum_by-without f m (e ∷ es) = elim (Bool-cases (same e.0 m)) [
  | inl h ↦ let ih = sum_by-without f m es in ground arith
  | inr h ↦ let ih = sum_by-without f m es in ground arith
]

pub at_key_here {ℓ κ} :
    {K : Type ℓ} {A : Type κ} (eq : Discrete K) (k : K) (a : A) (f : K → A) → at_key eq k a f k ≡ a
at_key_here eq k a f = split (eq k k)
  where
    split : (d : Dec (k ≡ k)) → elim d [ yes _ ↦ a | no _ ↦ f k ] ≡ a
    split (yes p) = refl
    split (no q) = absurd (q refl)

pub at_key_there {ℓ κ} :
    {K : Type ℓ} {A : Type κ} (eq : Discrete K) (k l : K) (a : A) (f : K → A)
    → l ≢ k
    → at_key eq k a f l ≡ f l
at_key_there eq k l a f ne = split (eq l k)
  where
    split : (d : Dec (l ≡ k)) → elim d [ yes _ ↦ a | no _ ↦ f l ] ≡ f l
    split (yes p) = absurd (ne p)
    split (no q) = refl

pub zadd_moves :
    (z : ZsetKey) (m : Member) (score : ℕ) (db : Store) (f : Member × ℕ → ℕ)
    → sum_by f ((memory.zadd z m score db).zsets z)
        + sum_by (λ e. if same e.0 m then f e else 0) (db.zsets z)
      ≡ f (m, score) + sum_by f (db.zsets z)
zadd_moves z m score db f =
    rw (at_key_here ZsetKey-discrete z (place (m, score) (without m (db.zsets z))) db.zsets) (
      omega (
        arith,
        sum_by-place f (m, score) (without m (db.zsets z)),
        sum_by-without f m (db.zsets z),
      ))

pub at_field :
    (f : Field) (h : Field → Option ℤ)
    → elim (Field-discrete f f) [ yes _ ↦ none | no _ ↦ h f ] ≡ none
at_field f h = split (Field-discrete f f)
  where
    split : (d : Dec (f ≡ f)) → elim d [ yes _ ↦ none | no _ ↦ h f ] ≡ none
    split (yes p) = refl
    split (no q) = absurd (q refl)

pub sadd_adds :
    (b seconds at : ℕ) (id : String) (db : Store) (later : ℕ)
    → later < at + seconds
    → memory.sismember b id later (memory.expire_bucket b seconds at (memory.sadd b id at db))
      ≡ true
sadd_adds b seconds at id db later h =
    let self = eq_refl id in
    elim (Bool-cases (before at (db.buckets b).deadline)) [
      | inl live ↦ ground arith
      | inr gone ↦ ground arith
    ]

pub sadd_keeps :
    (b seconds at : ℕ) (id : String) (db : Store) (c : ℕ) (other : String) (later : ℕ)
    → at ≤ later
    → later < at + seconds
    → memory.sismember c other later db ≡ true
    → memory.sismember c other later (memory.expire_bucket b seconds at (memory.sadd b id at db))
      ≡ true
sadd_keeps b seconds at id db c other later h1 h2 there = ground arith

unfoldable pub memory_laws : Laws memory
memory_laws = record {
  members = λ z db. db.zsets z;
  zcount_counts = λ z low high db. refl;
  zrangebyscore_lists = λ z low high db. refl;
  second_newest_reads = λ z db. refl;
  zadd_moves = zadd_moves;
  zadd_other = λ z w m score db ne. at_key_there ZsetKey-discrete z w _ db.zsets ne;
  zadd_hget = λ z m score db k f. refl;
  hset_sets = λ k mapping db f. ap (λ h. h f) (at_key_here HashKey-discrete k _ db.hashes);
  hset_other =
      λ k l mapping db f ne. ap (λ h. h f) (at_key_there HashKey-discrete k l _ db.hashes ne);
  hset_members = λ k mapping db z. refl;
  hdel_deletes = λ k f db.
      ap (λ h. h f) (at_key_here HashKey-discrete k _ db.hashes) ∙ at_field f (db.hashes k);
  hdel_other = λ k l f db g ne. ap (λ h. h g) (at_key_there HashKey-discrete k l _ db.hashes ne);
  hdel_members = λ k f db z. refl;
  expire_hget = λ k seconds db l f. refl;
  expire_members = λ k seconds db z. refl;
  bucket_hget = λ b seconds at id db l f. refl;
  bucket_members = λ b seconds at id db z. refl;
  zadd_bucket = λ z m score db b id at. refl;
  hset_bucket = λ k mapping db b id at. refl;
  hdel_bucket = λ k f db b id at. refl;
  expire_hash_bucket = λ k seconds db b id at. refl;
  sadd_adds = sadd_adds;
  sadd_keeps = sadd_keeps;
}
