-- ===== src/FeatureStore/Meaning.antt =====
-- What a conversion of feature_store/client.py makes of a text, against what the text means.
use fraud_forecast.Base.{
  ◌≡◌, refl, sym, subst, Bool, true, false, Option, none, some, get_or, if◌then◌else◌, String,
}
use fraud_forecast.Base.Int.{pos, ℤ}
use fraud_forecast.FeatureStore.Schema.{Kind, int, float}
use fraud_forecast.FeatureStore.Build.{
  Numerals, Value, int_value, float_value, is_blank, convert, to_int, to_float,
}

module _ (N : Numerals) where
  open N use {Float, zero_float, int_of, float_of}

  -- What a text means as a number, which absence and an empty text make zero.
  pub data Means : Kind → Option String → Value Float → Type 0 where
    blank_int : {text : Option String} → is_blank text ≡ true → Means int text (int_value (pos 0))
    blank_float :
        {text : Option String} → is_blank text ≡ true → Means float text (float_value zero_float)
    whole :
        {text : String} {n : ℤ}
        → is_blank (some text) ≡ false
        → int_of text ≡ some n
        → Means int (some text) (int_value n)
    real :
        {text : String} {x : Float}
        → is_blank (some text) ≡ false
        → float_of text ≡ some x
        → Means float (some text) (float_value x)

  pub data Unreadable : Kind → Option String → Type 0 where
    no_int :
        {text : String}
        → is_blank (some text) ≡ false
        → int_of text ≡ none
        → Unreadable int (some text)
    no_float :
        {text : String}
        → is_blank (some text) ≡ false
        → float_of text ≡ none
        → Unreadable float (some text)

  -- `convert`, with the blank test and the two conversions as arguments.
  abbrev converted : Kind → Bool → Option ℤ → Option Float → Option (Value Float)
  converted int blank n x = elim (if blank then some (pos 0) else n) [
    | none ↦ none
    | some m ↦ some (int_value m)
  ]
  converted float blank n x = elim (if blank then some zero_float else x) [
    | none ↦ none
    | some y ↦ some (float_value y)
  ]

  converted-convert :
      (k : Kind) (text : Option String)
      → convert N k text
        ≡ converted k (is_blank text) (int_of (get_or text "")) (float_of (get_or text ""))
  unfolding convert to_int to_float
  converted-convert int text = refl
  converted-convert float text = refl

  -- One of the two holds, by how the conversion ends.
  abbrev pub Ended : Kind → Option String → Option (Value Float) → Type 0
  Ended k text none = Unreadable k text
  Ended k text (some v) = Means k text v

  converted-Ended :
      (k : Kind) (text : Option String) (b : Bool) (n : Option ℤ) (x : Option Float)
      → is_blank text ≡ b
      → int_of (get_or text "") ≡ n
      → float_of (get_or text "") ≡ x
      → Ended k text (converted k b n x)
  converted-Ended int text true n x eb en ex = blank_int eb
  converted-Ended float text true n x eb en ex = blank_float eb
  converted-Ended k none false n x eb en ex = absurd (cc eb)
  converted-Ended int (some s) false none x eb en ex = no_int eb en
  converted-Ended int (some s) false (some m) x eb en ex = whole eb en
  converted-Ended float (some s) false n none eb en ex = no_float eb ex
  converted-Ended float (some s) false n (some y) eb en ex = real eb ex

  pub convert-Ended : (k : Kind) (text : Option String) → Ended k text (convert N k text)
  convert-Ended k text =
      subst (Ended k text) (sym (converted-convert k text))
        (converted-Ended k text _ _ _ refl refl refl)
