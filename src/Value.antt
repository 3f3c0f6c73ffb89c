-- ===== src/Value.antt =====
-- The values that JSON decodes to (`dict`, `list`, `str`, `int`, `float`, `bool`, `None`), with the
-- reads that the program makes of them. A `dict` has each key once; a `float` is its bit pattern.
pub mod Laws
use opencode_orchestrator.Prelude.{ℕ, Bool, List, [], ◌∷◌, Option, none, some, if◌then◌else◌}
use opencode_orchestrator.Text.{Text, text_eq}

-- `negsuc n` is -(n + 1).
pub data ℤ : Type 0 where
  pos : ℕ → ℤ
  negsuc : ℕ → ℤ

mutual
  pub data Value : Type 0 where
    null : Value
    bool : Bool → Value
    int : ℤ → Value
    float : ℕ → Value
    str : Text → Value
    arr : Items → Value
    obj : Fields → Value

  pub data Items : Type 0 where
    nil : Items
    cons : Value → Items → Items

  pub data Fields : Type 0 where
    end : Fields
    field : Text → Value → Fields → Fields

abbrev pub to_list : Items → List Value
to_list nil = []
to_list (cons v vs) = v ∷ to_list vs

abbrev pub of_list : List Value → Items
of_list [] = nil
of_list (v ∷ vs) = cons v (of_list vs)

-- `raw.get(key)`; `none` where the key is missing
unfoldable pub get : Text → Fields → Option Value
get key end = none
get key (field k v fs) = if text_eq k key then some v else get key fs

-- `set(raw)`
abbrev pub keys : Fields → List Text
keys end = []
keys (field k v fs) = k ∷ keys fs

-- `raw[key] = v`
unfoldable pub put : Text → Value → Fields → Fields
put key v end = field key v end
put key v (field k w fs) = if text_eq k key then field k v fs else field k w (put key v fs)

-- every item satisfies `P`
abbrev pub AllItems : (Value → Type 0) → Items → Type 0
AllItems P nil = Unit
AllItems P (cons v vs) = P v × AllItems P vs
