-- ===== src/Base/Json.antt =====
-- What Python's `json.loads` returns, and how dynamic code reads it: `get`, truth, iteration.
use mathlib.Core.Bool.{Bool, true, false, not}
use mathlib.Core.Option.{Option, none, some}
use mathlib.Core.List.{List, [], ◌∷◌}
use devops_agent_msk_mcp.Base.Tests.{if◌then◌else◌}
use devops_agent_msk_mcp.Base.Equality.{◌==◌, int_eq, text_eq}
use devops_agent_msk_mcp.Base.Int.{ℤ, pos}
use devops_agent_msk_mcp.Base.Strings.{Text, codes}

-- A float is given by its `repr` and whether it is zero. The keys of an object are distinct.
mutual
  pub data Json : Type 0 where
    null : Json
    boolean : Bool → Json
    int : ℤ → Json
    float : Bool → Text → Json
    str : Text → Json
    list : Items → Json
    dict : Fields → Json

  pub data Items : Type 0 where
    end : Items
    item : Json → Items → Items

  pub data Fields : Type 0 where
    close : Fields
    field : Text → Json → Fields → Fields

-- `bool(x)`
unfoldable pub truthy : Json → Bool
truthy null = false
truthy (boolean b) = b
truthy (int z) = not (z == pos 0)
truthy (float is_zero text) = not is_zero
truthy (str []) = false
truthy (str (c ∷ s)) = true
truthy (list end) = false
truthy (list (item x xs)) = true
truthy (dict close) = false
truthy (dict (field k x fs)) = true

-- The name of a value's type, as error messages show it.
unfoldable pub type_name : Json → Text
type_name null = codes "NoneType"
type_name (boolean b) = codes "bool"
type_name (int z) = codes "int"
type_name (float is_zero text) = codes "float"
type_name (str s) = codes "str"
type_name (list xs) = codes "list"
type_name (dict fs) = codes "dict"

unfoldable pub lookup_field : Text → Fields → Option Json
lookup_field k close = none
lookup_field k (field j x fs) = if k == j then some x else lookup_field k fs

-- What iteration yields: the items of a list, the keys of an object, the characters of a text.
unfoldable pub list_items : Items → List Json
list_items end = []
list_items (item x xs) = x ∷ list_items xs

unfoldable pub field_keys : Fields → List Json
field_keys close = []
field_keys (field k x fs) = str k ∷ field_keys fs

unfoldable pub characters : Text → List Json
characters [] = []
characters (c ∷ s) = str (c ∷ []) ∷ characters s

-- `x in xs` for a text `x`
unfoldable pub in_items : Text → Items → Bool
in_items s end = false
in_items s (item (str t) xs) = if s == t then true else in_items s xs
in_items s (item null xs) = in_items s xs
in_items s (item (boolean b) xs) = in_items s xs
in_items s (item (int z) xs) = in_items s xs
in_items s (item (float is_zero text) xs) = in_items s xs
in_items s (item (list l) xs) = in_items s xs
in_items s (item (dict d) xs) = in_items s xs

unfoldable pub in_fields : Text → Fields → Bool
in_fields s close = false
in_fields s (field k x fs) = if s == k then true else in_fields s fs
