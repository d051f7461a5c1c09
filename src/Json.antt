-- ===== src/Json.antt =====
-- The values of `json` in Python: what a gateway's requests and replies hold. A float is a whole number
-- of thousandths, so a time in seconds has its milliseconds.
use pazuzu.Base.{
  ℤ, is_nat, is_empty, ◌≡◌, refl, ap, Bool, true, false, not, ◌&&◌, Option, none, some, List, [],
  ◌∷◌, map, Text, text_eq, contains, all, if◌then◌else◌,
}

mutual
  pub data Json : Type 0 where
    null : Json
    boolean : Bool → Json
    number real : ℤ → Json
    text : Text → Json
    array : Elements → Json
    object : Members → Json

  pub data Elements : Type 0 where
    no_elements : Elements
    element : Json → Elements → Elements

  pub data Members : Type 0 where
    no_members : Members
    member : Text → Json → Members → Members

-- A dictionary with text keys, which are distinct.
abbrev pub Dict : Type 0
Dict = List (Text × Json)

abbrev pub keys : Dict → List Text
keys d = map (λ (k, v). k) d

-- `d.get(key)`
unfoldable pub get : Dict → Text → Option Json
get [] key = none
get ((k, v) ∷ d) key = let rest = get d key in if text_eq k key then some v else rest

-- `set(d) == expected`
unfoldable pub has_keys : List Text → Dict → Bool
has_keys expected d = all (contains expected) (keys d) && all (contains (keys d)) expected

abbrev pub members : Members → Dict
members no_members = []
members (member k v rest) = (k, v) ∷ members rest

abbrev pub object_of : Dict → Members
object_of [] = no_members
object_of ((k, v) ∷ d) = member k v (object_of d)

abbrev pub elements : Elements → List Json
elements no_elements = []
elements (element v rest) = v ∷ elements rest

abbrev pub array_of : List Json → Elements
array_of [] = no_elements
array_of (v ∷ vs) = element v (array_of vs)

pub members-object_of : (d : Dict) → members (object_of d) ≡ d
members-object_of [] = refl
members-object_of ((k, v) ∷ d) = ap (◌∷◌ (k, v)) (members-object_of d)

-- `bool(v)`
abbrev pub is_truthy : Json → Bool
is_truthy null = false
is_truthy (boolean b) = b
is_truthy (number n) = not (is_nat n 0)
is_truthy (real n) = not (is_nat n 0)
is_truthy (text t) = not (is_empty t)
is_truthy (array no_elements) = false
is_truthy (array (element v vs)) = true
is_truthy (object no_members) = false
is_truthy (object (member k v rest)) = true

-- `d.get(key, default)`
abbrev pub or_else : Option Json → Json → Json
or_else none default = default
or_else (some v) default = v

-- A text, or `null` for None.
abbrev pub nullable : Option Text → Json
nullable none = null
nullable (some t) = text t
