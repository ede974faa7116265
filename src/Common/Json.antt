-- ===== src/Common/Json.antt =====
-- Values of `json.loads`, and the operations of Python on them.
-- A number stands for so many millionths; the reports hold scores from 0 to 100.
use Prim.Native.Nat.{ℕ}
use mathlib.Core.Bool.{Bool, true, false, not}
use mathlib.Core.Option.{Option, none, some}
use mathlib.Core.List.{List, [], ◌∷◌}
use argus_sbomguard.Common.Test.{◌==◌, nat_eq, list_eq, if◌then◌else◌}
use argus_sbomguard.Common.Texts.{Text}
use argus_sbomguard.Common.Result.{Outcome, return, raise, attribute_error, type_error, key_error}

mutual
  pub data Json : Type 0 where
    null : Json
    bool : Bool → Json
    num : ℕ → Json
    str : Text → Json
    arr : Items → Json
    obj : Fields → Json

  pub data Items : Type 0 where
    nil : Items
    cons : Json → Items → Items

  pub data Fields : Type 0 where
    end : Fields
    field : Text → Json → Fields → Fields

-- bool(value)
unfoldable pub truthy : Json → Bool
truthy null = false
truthy (bool b) = b
truthy (num n) = not (n == 0)
truthy (str []) = false
truthy (str (c ∷ s)) = true
truthy (arr nil) = false
truthy (arr (cons x xs)) = true
truthy (obj end) = false
truthy (obj (field k v fs)) = true

-- a or b
unfoldable pub or_else : Json → Json → Json
unfolding truthy
or_else a b = if truthy a then a else b

-- The keys of a parsed object are distinct, so the first one is the one.
unfoldable pub lookup_field : Text → Fields → Option Json
lookup_field k end = none
lookup_field k (field j v fs) = let rest = lookup_field k fs in if j == k then some v else rest

abbrev default_to : Json → Option Json → Json
default_to d none = d
default_to d (some v) = v

-- value.get(key, default); only an object has `get`.
unfoldable pub get : Json → Text → Json → Outcome Json
unfolding lookup_field
get (obj fs) k d = return (default_to d (lookup_field k fs))
get _ k d = raise attribute_error

-- value[0]
unfoldable pub first : Json → Outcome Json
first (arr (cons x xs)) = return x
first (arr nil) = raise key_error
first (obj fs) = raise key_error
first (str (c ∷ s)) = return (str (c ∷ []))
first (str []) = raise key_error
first _ = raise type_error

-- The elements that `for x in value` visits.
abbrev pub items : Items → List Json
items nil = []
items (cons x xs) = x ∷ items xs
