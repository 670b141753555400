-- ===== src/Base/Values.antt =====
-- JSON values, as Python's `json` module reads and writes them, and what the code asks of a `dict`.
use Prim.Native.Nat.{ℕ}
use Prim.Native.String.{String}
use mathlib.Core.Bool.{Bool}
use mathlib.Core.List.{List, [], ◌∷◌}
use mathlib.Core.Option.{Option, none, some}
use text.Mathlib.Text.{◌==◌}
use dadi_runtime.Base.Tests.{if◌then◌else◌}

-- `negsuc n` is -(n + 1).
pub data ℤ : Type 0 where
  pos : ℕ → ℤ
  negsuc : ℕ → ℤ

-- A float is kept as the text that it was read from.
mutual
  pub data Json : Type 0 where
    null : Json
    bool : Bool → Json
    int : ℤ → Json
    float : String → Json
    str : String → Json
    arr : Items → Json
    obj : Fields → Json

  pub data Items : Type 0 where
    nil : Items
    cons : Json → Items → Items

  pub data Fields : Type 0 where
    end : Fields
    field : String → Json → Fields → Fields

-- `d.get(key)`, with `none` for a missing key
unfoldable pub get_field : Fields → String → Option Json
get_field end key = none
get_field (field k v rest) key = if k == key then some v else get_field rest key

-- `d.pop(key, None)` on a copy
unfoldable pub pop_field : Fields → String → Fields
pop_field end key = end
pop_field (field k v rest) key =
    let tail = pop_field rest key in if k == key then tail else field k v tail

-- `d[key] = v` on a copy
unfoldable pub put_field : Fields → String → Json → Fields
put_field end key v = field key v end
put_field (field k w rest) key v =
    let tail = put_field rest key v in if k == key then field k v rest else field k w tail

abbrev pub nat : ℕ → Json
nat n = int (pos n)

-- a list of texts
abbrev pub texts : List String → Items
texts [] = nil
texts (s ∷ ss) = cons (str s) (texts ss)

-- an `Optional[str]`
abbrev pub opt_str : Option String → Json
opt_str none = null
opt_str (some s) = str s

-- `v` where `isinstance(v, str)`
abbrev pub as_text : Option Json → Option String
as_text (some (str s)) = some s
as_text _ = none

abbrev pub append_items : Items → Items → Items
append_items nil ys = ys
append_items (cons x xs) ys = cons x (append_items xs ys)
