-- ===== src/Json.antt =====
-- The calls of cJSON that the handlers make, as an interface: cJSON is another project's library.
use adb_termux_bridge.Base.{
  ◌≡◌, refl, Bool, true, false, Option, some, List, [], ◌∷◌, ℤ, pos, Bytes, print_int,
}

-- What the handlers add to an object: a string or a number. All numbers are integers.
pub data Field : Type 0 where
  text : Bytes → Field
  number : ℤ → Field

pub record Cjson : Type 1 where
  pub Item : Type 0
  -- `cJSON_Parse`; `none` for NULL
  pub parse : Bytes → Option Item
  -- `cJSON_GetObjectItem`
  pub get_object_item : Item → Bytes → Option Item
  pub is_string : Item → Bool
  pub is_number : Item → Bool
  pub is_bool : Item → Bool
  pub is_true : Item → Bool
  pub is_object : Item → Bool
  -- the fields of an item; `none` for NULL
  pub string : Item → Option Bytes
  pub valuestring : Item → Option Bytes
  -- `(int)item->valuedouble`
  pub int_value : Item → ℤ
  -- the items that `cJSON_ArrayForEach` visits
  pub children : Item → List Item
  -- `cJSON_PrintUnformatted` of an object with these members, added in this order
  pub print_object : List (Bytes × Field) → Bytes
  -- documented: a string item has a `valuestring`
  pub string_value : (i : Item) → is_string i ≡ true → (s : Bytes) × (valuestring i ≡ some s)

-- For tests: a text is its own only item, a string; an object is printed as its first field's text.
abbrev print_first : List (Bytes × Field) → Bytes
print_first [] = []
print_first ((key, text t) ∷ fs) = t
print_first ((key, number n) ∷ fs) = print_int n

abbrev pub plain_json : Cjson
plain_json = record {
  Item = Bytes;
  parse = λ s. some s;
  get_object_item = λ i key. some i;
  is_string = λ i. true;
  is_number = λ i. false;
  is_bool = λ i. false;
  is_true = λ i. false;
  is_object = λ i. false;
  string = λ i. some i;
  valuestring = λ i. some i;
  int_value = λ i. pos 0;
  children = λ i. [];
  print_object = print_first;
  string_value = λ i h. (i, refl);
}
