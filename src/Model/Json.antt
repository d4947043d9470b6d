-- ===== src/Model/Json.antt =====
-- The values that `json.loads` returns, with the operations on `dict` that the program calls.
use safepatch.Base.{
  ℕ, Bool, true, false, not, Option, none, some, List, [], ◌∷◌, if◌then◌else◌, ◌==◌, ◌||◌,
}
use safepatch.Text.{Text, codes, text_eq}

-- `negative n` is -n for a positive n; a float is kept by its repr.
mutual
  pub data Json : Type 0 where
    null : Json
    boolean : Bool → Json
    number negative : ℕ → Json
    float text : Text → Json
    array : Items → Json
    object : Members → Json

  pub data Items : Type 0 where
    no_items : Items
    item : Json → Items → Items

  -- A dict, in the order of insertion.
  pub data Members : Type 0 where
    no_members : Members
    member : Text → Json → Members → Members

-- Python's library: json.loads (`none` for a JSONDecodeError) and str() of a value that is no text.
pub record Library : Type 0 where
  pub loads : Text → Option Json
  pub repr : Json → Text

-- str(value)
unfoldable pub py_str : Library → Json → Text
py_str library (text s) = s
py_str library j = library.repr j

-- d.get(key)
unfoldable pub lookup : Text → Members → Option Json
lookup key no_members = none
lookup key (member k v d) = let rest = lookup key d in if text_eq k key then some v else rest

-- d[key] = value
unfoldable pub insert : Text → Json → Members → Members
insert key value no_members = member key value no_members
insert key value (member k v d) =
    let rest = insert key value d in if text_eq k key then member k value d else member k v rest

-- {k: v for k, v in d.items() if k != key}
unfoldable pub remove : Text → Members → Members
remove key no_members = no_members
remove key (member k v d) =
    let rest = remove key d in if text_eq k key then rest else member k v rest

-- The list of a JSON array.
unfoldable pub items_list : Items → List Json
items_list no_items = []
items_list (item j js) = j ∷ items_list js

unfoldable pub list_items : List Json → Items
list_items [] = no_items
list_items (j ∷ js) = item j (list_items js)

-- bool(value)
unfoldable pub is_true : Json → Bool
unfolding text_eq
is_true null = false
is_true (boolean b) = b
is_true (number n) = not (n == 0)
is_true (float s) = not (text_eq s (codes "0.0") || text_eq s (codes "-0.0"))
is_true (text []) = false
is_true (array no_items) = false
is_true (object no_members) = false
is_true _ = true

unfoldable pub is_no_members : Members → Bool
is_no_members no_members = true
is_no_members (member k v d) = false

-- value in (None, ""), where an absent key counts as None
unfoldable pub is_blank : Option Json → Bool
is_blank none = true
is_blank (some null) = true
is_blank (some (text [])) = true
is_blank (some j) = false
