-- ===== src/Bridge/Json.antt =====
-- JSON values, as bridge/ttx_bridge.py reads and compares them.
use cascade_vpn.Base.{
  ℕ, String, Bool, true, false, ◌&&◌, not, Option, none, some, List, [], ◌∷◌, ◌==◌, str_eq,
  if◌then◌else◌,
}

-- An integer: `pos n` is n, `negsuc n` is -(n+1).
pub data ℤ : Type 0 where
  pos negsuc : ℕ → ℤ

-- A number that equals an integer is that integer; `fraction` is any other.
mutual
  pub data Json : Type 0 where
    null : Json
    bool : Bool → Json
    number : ℤ → Json
    fraction : ℕ → Json
    text : String → Json
    array : Jsons → Json
    object : Members → Json

  pub data Jsons : Type 0 where
    nil : Jsons
    cons : Json → Jsons → Jsons

  pub data Members : Type 0 where
    empty : Members
    member : String → Json → Members → Members

unfoldable pub to_list : Jsons → List Json
to_list nil = []
to_list (cons j js) = j ∷ to_list js

-- `d.get(key)` of a dictionary, in which no key stands twice
unfoldable pub member_of : String → Members → Option Json
member_of key empty = none
member_of key (member k j ms) = let rest = member_of key ms in if str_eq k key then some j else rest

abbrev pub integer_eq : ℤ → ℤ → Bool
integer_eq (pos m) (pos n) = m == n
integer_eq (negsuc m) (negsuc n) = m == n
integer_eq _ _ = false

-- True is 1 and False is 0.
abbrev pub bit_of : Bool → ℤ
bit_of true = pos 1
bit_of false = pos 0

abbrev bool_eq : Bool → Bool → Bool
bool_eq true b = b
bool_eq false b = not b

-- `actual == value`, for a value that is no dictionary and holds none.
unfoldable mutual
  pub json_eq : Json → Json → Bool
  json_eq null null = true
  json_eq (bool a) (bool b) = bool_eq a b
  json_eq (bool a) (number n) = integer_eq (bit_of a) n
  json_eq (number n) (bool b) = integer_eq n (bit_of b)
  json_eq (number m) (number n) = integer_eq m n
  json_eq (fraction m) (fraction n) = m == n
  json_eq (text s) (text t) = str_eq s t
  json_eq (array xs) (array ys) = all_eq xs ys
  json_eq _ _ = false

  pub all_eq : Jsons → Jsons → Bool
  all_eq nil nil = true
  all_eq (cons x xs) (cons y ys) = json_eq x y && all_eq xs ys
  all_eq _ _ = false

-- `bool(value)`
unfoldable pub truthy : Json → Bool
truthy null = false
truthy (bool b) = b
truthy (number (pos n)) = not (n == 0)
truthy (number (negsuc n)) = true
truthy (fraction n) = true
truthy (text s) = not (str_eq s "")
truthy (array nil) = false
truthy (array (cons _ _)) = true
truthy (object empty) = false
truthy (object (member _ _ _)) = true
