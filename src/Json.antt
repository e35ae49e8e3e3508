-- ===== src/Json.antt =====
-- `serde_json::Value`, over the type `N` of its numbers. An object is a `BTreeMap`: its entries stand
-- in the order of their keys.
use db233_rust.Common.{
  Bool, true, false, Text, ◌∷◌, [], List, ltb, ◌==◌, text_eq, Option, none, some, if◌then◌else◌,
}

mutual
  pub data Json (N : Type 0) : Type 0 where
    null : Json N
    bool : Bool → Json N
    number : N → Json N
    string : Text → Json N
    array : Items N → Json N
    object : Fields N → Json N

  pub data Items (N : Type 0) : Type 0 where
    nil : Items N
    cons : Json N → Items N → Items N

  pub data Fields (N : Type 0) : Type 0 where
    end : Fields N
    field : Text → Json N → Fields N → Fields N

-- The order of `String`: by bytes.
text_lt : Text → Text → Bool
text_lt s [] = false
text_lt [] (b ∷ t) = true
text_lt (a ∷ s) (b ∷ t) = let rest = text_lt s t in if a == b then rest else ltb a b

module _ {N : Type 0} where
  -- `for (key, value) in obj`
  unfoldable pub entries : Fields N → List (Text × Json N)
  entries end = []
  entries (field k v fs) = (k, v) ∷ entries fs

  -- `if let Value::Object(obj) = json`, with no entry otherwise
  unfoldable pub object_entries : Json N → List (Text × Json N)
  unfolding entries
  object_entries (object fs) = entries fs
  object_entries null = []
  object_entries (bool b) = []
  object_entries (number n) = []
  object_entries (string s) = []
  object_entries (array xs) = []

  -- `Map::insert`
  unfoldable pub insert_field : Text → Json N → Fields N → Fields N
  unfolding text_lt
  insert_field k v end = field k v end
  insert_field k v (field j w fs) =
      if text_eq j k
      then field k v fs
      else (if text_lt k j then field k v (field j w fs) else field j w (insert_field k v fs))

  -- `Map::get`
  unfoldable pub get_field : Text → Fields N → Option (Json N)
  get_field k end = none
  get_field k (field j w fs) = if text_eq j k then some w else get_field k fs
