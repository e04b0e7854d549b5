-- ===== src/Storage/Schema/Json.antt =====
-- `any` as encoding/json decodes it: the values of `Properties`, and reflect.DeepEqual on them.
use fun_project.Common.{
  ℕ, suc, String, Bool, true, false, ◌&&◌, Option, none, some, ◌==◌, nat_eq, if◌then◌else◌,
}
use fun_project.Storage.Schema.Float.{Float64, float_eq}

mutual
  pub data Json : Type 0 where
    null : Json
    boolean : Bool → Json
    number : Float64 → Json
    text : String → Json
    array : Items → Json
    object : Fields → Json

  pub data Items : Type 0 where
    nil : Items
    cons : Json → Items → Items

  -- A map as its keys, each once, with their values; the nil map has none.
  pub data Fields : Type 0 where
    end : Fields
    field : String → Json → Fields → Fields

unfoldable pub field_count : Fields → ℕ
field_count end = 0
field_count (field k v fs) = suc (field_count fs)

unfoldable pub get_field : String → Fields → Option Json
get_field k end = none
get_field k (field j v fs) = if j == k then some v else get_field k fs

same_bool : Bool → Bool → Bool
same_bool true b = b
same_bool false true = false
same_bool false false = true

-- The value beside a key, compared by `same`; a missing key differs.
on_some : (Json → Bool) → Option Json → Bool
on_some same none = false
on_some same (some v) = same v

unfoldable mutual
  unfolding same_bool on_some field_count get_field float_eq

  pub deep_equal : Json → Json → Bool
  deep_equal null null = true
  deep_equal (boolean a) (boolean b) = same_bool a b
  deep_equal (number a) (number b) = float_eq a b
  deep_equal (text a) (text b) = a == b
  deep_equal (array a) (array b) = deep_equal_items a b
  deep_equal (object a) (object b) = nat_eq (field_count a) (field_count b) && deep_equal_fields a b
  deep_equal _ _ = false

  pub deep_equal_items : Items → Items → Bool
  deep_equal_items nil nil = true
  deep_equal_items (cons a xs) (cons b ys) = deep_equal a b && deep_equal_items xs ys
  deep_equal_items _ _ = false

  pub deep_equal_fields : Fields → Fields → Bool
  deep_equal_fields end g = true
  deep_equal_fields (field k v f) g =
      on_some (deep_equal v) (get_field k g) && deep_equal_fields f g
