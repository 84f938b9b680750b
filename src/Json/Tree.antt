-- ===== src/Json/Tree.antt =====
-- The tree that cJSON parses and prints. cJSON itself is vendored: its `cJSON_Parse` and
-- `cJSON_PrintUnformatted` are the parameters `parse` and `print` of the modules that call them.
-- A number is the natural number that the code's cast to an integer gives.
use ably_connectors.Prelude.{ℕ, Bool, Option, none, some, List, [], ◌∷◌, if◌then◌else◌}
use ably_connectors.Channel.Listeners.{strcmp_eq}

mutual
  pub data Json : Type 0 where
    null : Json
    bool : Bool → Json
    number : ℕ → Json
    string : List ℕ → Json
    array : Items → Json
    object : Fields → Json

  pub data Items : Type 0 where
    nil : Items
    item : Json → Items → Items

  pub data Fields : Type 0 where
    end : Fields
    field : List ℕ → Json → Fields → Fields

-- The first field of the name.
unfoldable pub find_field : List ℕ → Fields → Option Json
find_field key end = none
find_field key (field name value fields) =
    let later = find_field key fields in if strcmp_eq name key then some value else later

-- `cJSON_GetObjectItemCaseSensitive`: NULL where the value is no object.
abbrev pub get_item : Json → List ℕ → Option Json
get_item (object fields) key = find_field key fields
get_item _ key = none

-- `item && cJSON_IsString(item) ? item->valuestring : NULL`, and the like for the other types.
abbrev pub as_string : Option Json → Option (List ℕ)
as_string (some (string s)) = some s
as_string _ = none

abbrev pub as_number : Option Json → Option ℕ
as_number (some (number n)) = some n
as_number _ = none

abbrev pub as_object : Option Json → Option Json
as_object (some (object fields)) = some (object fields)
as_object _ = none

abbrev pub to_list : Items → List Json
to_list nil = []
to_list (item j items) = j ∷ to_list items

abbrev pub as_array : Option Json → Option (List Json)
as_array (some (array items)) = some (to_list items)
as_array _ = none

abbrev pub values : Fields → List Json
values end = []
values (field name j fields) = j ∷ values fields

-- What `cJSON_ArrayForEach` runs over.
abbrev pub children : Json → List Json
children (array items) = to_list items
children (object fields) = values fields
children _ = []

abbrev pub from_list : List Json → Items
from_list [] = nil
from_list (j ∷ js) = item j (from_list js)

-- `if (text) cJSON_AddStringToObject(obj, key, text)`, in front of the fields that follow.
abbrev pub string_if : List ℕ → Option (List ℕ) → Fields → Fields
string_if key none fields = fields
string_if key (some text) fields = field key (string text) fields
