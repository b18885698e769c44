-- ===== src/Json.antt =====
-- JSON values as serde_json holds them: an object is its list of members, a number one of
-- serde_json's three kinds (a float as its literal text).

use iac.Prelude.{ℕ, String, Option, none, some, str_eq, if◌then◌else◌, List, [], ◌∷◌, Bool}

pub data Number : Type 0 where
  pos_int : ℕ → Number
  neg_int : ℕ → Number
  float : String → Number

mutual
  pub data Value : Type 0 where
    null : Value
    bool : Bool → Value
    number : Number → Value
    string : String → Value
    array : Items → Value
    object : Fields → Value

  pub data Items : Type 0 where
    nil : Items
    cons : Value → Items → Items

  pub data Fields : Type 0 where
    end : Fields
    field : String → Value → Fields → Fields

abbrev pub get_field : String → Fields → Option Value
get_field k end = none
get_field k (field j v fs) = if str_eq j k then some v else get_field k fs

-- `Value::get` with a string index: none unless the value is an object that has the member.
abbrev pub get : String → Value → Option Value
get k (object fs) = get_field k fs
get k null = none
get k (bool b) = none
get k (number n) = none
get k (string s) = none
get k (array xs) = none

abbrev pub as_array : Value → Option Items
as_array (array xs) = some xs
as_array null = none
as_array (bool b) = none
as_array (number n) = none
as_array (string s) = none
as_array (object fs) = none

abbrev pub as_str : Value → Option String
as_str (string s) = some s
as_str null = none
as_str (bool b) = none
as_str (number n) = none
as_str (array xs) = none
as_str (object fs) = none

abbrev pub remove_field : String → Fields → Fields
remove_field k end = end
remove_field k (field j v fs) =
    if str_eq j k then remove_field k fs else field j v (remove_field k fs)

abbrev pub items_of_list : List Value → Items
items_of_list [] = nil
items_of_list (v ∷ vs) = cons v (items_of_list vs)

abbrev pub nat : ℕ → Value
nat n = number (Number.pos_int n)

abbrev pub string_or_null : Option String → Value
string_or_null none = null
string_or_null (some s) = string s

abbrev pub strings : List String → Items
strings [] = nil
strings (s ∷ ss) = cons (string s) (strings ss)

-- `get_mut`: the first member of that name is rewritten.
abbrev pub map_field : String → (Value → Value) → Fields → Fields
map_field k f end = end
map_field k f (field j v fs) = if str_eq j k then field j (f v) fs else field j v (map_field k f fs)
