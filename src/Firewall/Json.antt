-- ===== src/Firewall/Json.antt =====
-- What `json.loads` gives, as `read_blocked_ips` of firewall/backends.py looks at it.
use net_father.Prelude.{
  Bool, false, Option, none, some, List, [], ◌∷◌, ◌==◌, text_eq_instance, if◌then◌else◌, Text,
  Result, ok, err, type_error, attribute_error, runtime_error, ◌>>=◌,
}

-- Numbers are told apart from the rest and no further.
mutual
  pub data Json : Type 0 where
    null : Json
    boolean : Bool → Json
    number : Json
    string : Text → Json
    array : Jsons → Json
    object : Fields → Json

  pub data Jsons : Type 0 where
    no_items : Jsons
    item : Json → Jsons → Jsons

  pub data Fields : Type 0 where
    no_fields : Fields
    field : Text → Json → Fields → Fields

-- `obj.get(key)`; of a repeated key `json.loads` keeps one value, the last.
unfoldable pub get : Text → Fields → Option Json
get key no_fields = none
get key (field k v rest) = elim (get key rest) [
  | some w ↦ some w
  | none ↦ if k == key then some v else none
]

-- `obj.get(key) == text`
abbrev pub get_is : Text → Text → Fields → Bool
get_is key text fields = elim (get key fields) [
  | none ↦ false
  | some (string t) ↦ t == text
  | some _ ↦ false
]

-- The objects under the key "set" of the items that are objects.
unfoldable pub set_objects : Text → Jsons → List Fields
set_objects key no_items = []
set_objects key (item (object fields) rest) = elim (get key fields) [
  | some (object inner) ↦ inner ∷ set_objects key rest
  | _ ↦ set_objects key rest
]
set_objects key (item _ rest) = set_objects key rest

-- `for item in value`: the characters of a text and the keys of an object are no objects.
abbrev pub iterate : Json → Result Jsons
iterate (array items) = ok items
iterate (string _) = ok no_items
iterate (object _) = ok no_items
iterate null = err type_error
iterate (boolean _) = err type_error
iterate number = err type_error

-- `payload.get(key, [])`, and what a loop over it meets.
unfoldable pub items_of : Text → Json → Result Jsons
items_of key (object fields) = elim (get key fields) [ none ↦ ok no_items | some v ↦ iterate v ]
items_of key _ = err attribute_error

-- The texts of a list; anything else in it raises RuntimeError.
unfoldable pub texts : Jsons → Result (List Text)
texts no_items = ok []
texts (item (string t) rest) = do ts ← texts rest; ok (t ∷ ts)
texts (item _ rest) = err runtime_error

-- The elements under a key: nothing for null or no key, and one element that is not in a list.
unfoldable pub elements : Text → Fields → Result (List Text)
elements key fields = elim (get key fields) [
  | none ↦ ok []
  | some null ↦ ok []
  | some (array items) ↦ texts items
  | some other ↦ texts (item other no_items)
]
