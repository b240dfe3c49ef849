-- ===== src/Json.antt =====
-- JSON values as Python reads them: what the program receives from outside, and free-form
-- metadata. An object is a list of fields with its keys in order, the form in which `canonical`
-- writes it, so equality of objects is equality of their fields.
use open_tapeout.Prelude.{
  ℕ, String, Bool, true, false, ◌&&◌, Option, none, some, List, [], ◌∷◌, str_eq, ℤ, eqb_ℤ,
  if◌then◌else◌, ◌*◌, ◌^◌, ltb_ℤ, pos, negsuc, not, ◌+◌, ◌-◌,
}
use open_tapeout.Result.{Result, ok, err, key_error, type_error}

-- A number: an integer of any size, or a double, which is `mantissa / 2 ^ scale` when it is finite.
pub data Number : Type 0 where
  int : ℤ → Number
  double : ℤ → ℕ → Number
  infinity minus_infinity not_a_number : Number

mutual
  pub data Json : Type 0 where
    null : Json
    bool : Bool → Json
    num : Number → Json
    str : String → Json
    arr : Items → Json
    obj : Fields → Json

  pub data Items : Type 0 where
    nil : Items
    cons : Json → Items → Items

  pub data Fields : Type 0 where
    end : Fields
    field : String → Json → Fields → Fields

-- A value as a key of a dictionary or an element of a set: lists and objects have no hash.
unfoldable pub hashable : Json → Result (Unit {0})
hashable (arr _) = err type_error
hashable (obj _) = err type_error
hashable _ = ok tt

-- `o.get(k)`
unfoldable pub get? : String → Fields → Option Json
get? k end = none
get? k (field j v rest) = if str_eq j k then some v else get? k rest

-- `o[k]`
unfoldable pub get : String → Fields → Result Json
unfolding get?
get k o = elim (get? k o) [ none ↦ err key_error | some v ↦ ok v ]

unfoldable pub field_names : Fields → List String
field_names end = []
field_names (field k v rest) = k ∷ field_names rest

unfoldable pub elements : Items → List Json
elements nil = []
elements (cons v rest) = v ∷ elements rest

-- `z * 2 ^ k`
abbrev pub shift : ℤ → ℕ → ℤ
shift (pos n) k = pos (n * 2 ^ k)
shift (negsuc n) k = negsuc ((n + 1) * 2 ^ k - 1)

-- A finite number as a mantissa and a scale.
unfoldable pub finite_parts : Number → Option (ℤ × ℕ)
finite_parts (int a) = some (a, 0)
finite_parts (double a i) = some (a, i)
finite_parts _ = none

-- `a == b`: exact between integers and doubles, as Python compares them.
unfoldable pub number_eq : Number → Number → Bool
unfolding finite_parts
number_eq infinity infinity = true
number_eq minus_infinity minus_infinity = true
number_eq a b = elim (finite_parts a) [
  | none ↦ false
  | some (m, i) ↦ elim (finite_parts b) [
    | none ↦ false
    | some (n, j) ↦ eqb_ℤ (shift m j) (shift n i)
  ]
]

-- `a < b` for finite numbers
unfoldable pub number_lt : Number → Number → Bool
unfolding finite_parts
number_lt a b = elim (finite_parts a) [
  | none ↦ false
  | some (m, i) ↦ elim (finite_parts b) [
    | none ↦ false
    | some (n, j) ↦ ltb_ℤ (shift m j) (shift n i)
  ]
]

abbrev pub bool_eq : Bool → Bool → Bool
bool_eq true b = b
bool_eq false b = not b

unfoldable mutual
  unfolding number_eq

  pub json_eq : Json → Json → Bool
  json_eq null null = true
  json_eq (bool a) (bool b) = bool_eq a b
  json_eq (bool a) (num n) = number_eq (int (pos (if a then 1 else 0))) n
  json_eq (num n) (bool b) = number_eq n (int (pos (if b then 1 else 0)))
  json_eq (num a) (num b) = number_eq a b
  json_eq (str a) (str b) = str_eq a b
  json_eq (arr a) (arr b) = items_eq a b
  json_eq (obj a) (obj b) = fields_eq a b
  json_eq _ _ = false

  pub items_eq : Items → Items → Bool
  items_eq nil nil = true
  items_eq (cons a x) (cons b y) = json_eq a b && items_eq x y
  items_eq _ _ = false

  pub fields_eq : Fields → Fields → Bool
  fields_eq end end = true
  fields_eq (field j a x) (field k b y) = str_eq j k && json_eq a b && fields_eq x y
  fields_eq _ _ = false

-- `v == s` for a text `s`
abbrev pub is_text : String → Json → Bool
is_text s (str t) = str_eq t s
is_text s _ = false

-- `o.get(k) == s`
unfoldable pub field_is : String → String → Fields → Bool
unfolding get?
field_is k s o = elim (get? k o) [ none ↦ false | some v ↦ is_text s v ]

-- `type(v) is bool`, `isinstance(v, str)`, `isinstance(v, dict)`, `isinstance(v, list)`
abbrev pub is_bool : Json → Bool
is_bool (bool b) = true
is_bool v = false

abbrev pub is_str : Json → Bool
is_str (str s) = true
is_str v = false

abbrev pub is_true : Json → Bool
is_true (bool b) = b
is_true v = false
