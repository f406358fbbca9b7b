-- ===== src/Value.antt =====
-- Go's `any` as the code meets it: in session values, in the input payload and in validation data.
-- An integer is its 64-bit two's complement pattern and a float64 its IEEE 754 bits.
use golite.Base.{ℕ, Bool, List, [], ◌∷◌, Str}

mutual
  pub data Value : Type 0 where
    null : Value
    boolean : Bool → Value
    int int64 uint float64 : ℕ → Value
    text : Str → Value
    slice : Values → Value
    object : Fields → Value

  -- []any
  pub data Values : Type 0 where
    nil : Values
    cons : Value → Values → Values

  -- map[string]any
  pub data Fields : Type 0 where
    end : Fields
    field : Str → Value → Fields → Fields

abbrev pub items : Values → List Value
items nil = []
items (cons v vs) = v ∷ items vs

unfoldable pub append_value : Values → Value → Values
append_value nil v = cons v nil
append_value (cons w vs) v = cons w (append_value vs v)
