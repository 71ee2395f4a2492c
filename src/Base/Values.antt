-- ===== src/Base/Values.antt =====
-- Python values as `json.loads` makes them. A finite float is ±n / 2 ^ k, which is exact.
use Prim.Native.Nat.{ℕ}
use Prim.Native.String.{String}
use mathlib.Core.Bool.{◌||◌, Bool, true, false, not}
use text.Mathlib.Text.{◌==◌}
use agent_collab.Base.Tests.{if◌then◌else◌, ◌=?◌}

pub data ℤ : Type 0 where
  pos : ℕ → ℤ
  negsuc : ℕ → ℤ

pub data Float : Type 0 where
  finite : (negative : Bool) (n k : ℕ) → Float
  infinite : (negative : Bool) → Float
  nan : Float

mutual
  pub data Value : Type 0 where
    null : Value
    bool : Bool → Value
    int : ℤ → Value
    float : Float → Value
    str : String → Value
    arr : Items → Value
    obj : Fields → Value

  pub data Fields : Type 0 where
    end : Fields
    field : (key : String) (value : Value) (rest : Fields) → Fields

  pub data Items : Type 0 where
    cons : (head : Value) (tail : Items) → Items
    nil : Items

-- data.get(key), where a missing key gives None
unfoldable pub get_field : Fields → String → Value
get_field end k = null
get_field (field j v fs) k = if j == k then v else get_field fs k

-- A list or a dict cannot be a member of a set or a key of a dict: TypeError.
unfoldable pub is_hashable : Value → Bool
is_hashable (arr _) = false
is_hashable (obj _) = false
is_hashable _ = true

-- One entry of `{key: value for key, value in ... if value is not None}`.
unfoldable pub put_present : String → Value → Fields → Fields
put_present k null rest = rest
put_present k v rest = field k v rest

-- bool(v)
unfoldable pub is_true : Value → Bool
is_true null = false
is_true (bool b) = b
is_true (int (pos n)) = not (n =? 0)
is_true (int (negsuc n)) = true
is_true (float (finite negative n k)) = not (n =? 0)
is_true (float f) = true
is_true (str s) = not (s == "")
is_true (arr nil) = false
is_true (arr (cons v vs)) = true
is_true (obj end) = false
is_true (obj (field k v fs)) = true

-- `key in d`
unfoldable pub has_field : Fields → String → Bool
has_field end k = false
has_field (field j v fs) k = (j == k) || has_field fs k

-- data[key] = value: in the place of the key, or at the end
unfoldable pub put_field : Fields → String → Value → Fields
put_field end k v = field k v end
put_field (field j w fs) k v =
    let rest = put_field fs k v in if j == k then field j v fs else field j w rest

-- items.append(value)
unfoldable pub append_item : Items → Value → Items
append_item nil v = cons v nil
append_item (cons w ws) v = cons w (append_item ws v)
