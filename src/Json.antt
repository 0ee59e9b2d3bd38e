-- ===== src/Json.antt =====
-- JSON values as Python's `json` reads them: integers, no fractions. Objects keep insertion order.
use usb_defense_system.Prelude.{
  ℕ, suc, String, ◌≡◌, refl, Bool, true, false, not, ◌&&◌, Option, none, some, List, [], ◌∷◌, arith,
  str_eq, eq_iff, ◌==◌, if◌then◌else◌, Text, codes, text_eq,
}

-- `negsuc n` is -(n + 1).
pub data ℤ : Type 0 where
  pos : ℕ → ℤ
  negsuc : ℕ → ℤ

mutual
  pub data Json : Type 0 where
    null : Json
    bool : Bool → Json
    int : ℤ → Json
    str : Text → Json
    arr : Items → Json
    obj : Fields → Json

  pub data Items : Type 0 where
    nil : Items
    cons : Json → Items → Items

  pub data Fields : Type 0 where
    end : Fields
    field : String → Json → Fields → Fields

-- A text literal of the program as a JSON string.
abbrev pub lit : String → Json
lit s = str (codes s)

abbrev pub num : ℕ → Json
num n = int (pos n)

unfoldable pub lookup : String → Fields → Option Json
lookup k end = none
lookup k (field j v fs) = if str_eq j k then some v else lookup k fs

-- `d[k] = v`: a key that is there keeps its place.
unfoldable pub insert : String → Json → Fields → Fields
insert k v end = field k v end
insert k v (field j w fs) = if str_eq j k then field k v fs else field j w (insert k v fs)

-- `d.update(e)`, and `{**d, **e}`
unfoldable pub update : Fields → Fields → Fields
unfolding insert
update d end = d
update d (field k v fs) = update (insert k v d) fs

pub lookup-insert :
    (k j : String) (v : Json) (fs : Fields)
    → lookup j (insert k v fs) ≡ (if str_eq k j then some v else lookup j fs)
unfolding lookup insert
lookup-insert k j v end = refl
lookup-insert k j v (field i w fs) =
    ground (arith, eq_iff k j, eq_iff i k, eq_iff i j, lookup-insert k j v fs)

-- Python's truth value of a JSON value
abbrev pub truthy : Json → Bool
truthy null = false
truthy (bool b) = b
truthy (int (pos n)) = not (n == 0)
truthy (int (negsuc n)) = true
truthy (str []) = false
truthy (str (c ∷ s)) = true
truthy (arr nil) = false
truthy (arr (cons x xs)) = true
truthy (obj end) = false
truthy (obj (field k v fs)) = true

-- `a or b`
abbrev pub or_else : Json → Json → Json
or_else a b = if truthy a then a else b

abbrev pub to_items : List Json → Items
to_items [] = nil
to_items (x ∷ xs) = cons x (to_items xs)

unfoldable pub int_eq : ℤ → ℤ → Bool
int_eq (pos m) (pos n) = m == n
int_eq (pos m) (negsuc n) = false
int_eq (negsuc m) (pos n) = false
int_eq (negsuc m) (negsuc n) = m == n

abbrev bool_int : Bool → ℤ
bool_int true = pos 1
bool_int false = pos 0

unfoldable pub field_count : Fields → ℕ
field_count end = 0
field_count (field k v fs) = suc (field_count fs)

abbrev bool_eq : Bool → Bool → Bool
bool_eq true b = b
bool_eq false b = not b

-- Python's `==`: `True == 1`, and the order of an object's keys does not matter.
unfoldable mutual
  unfolding int_eq field_count

  pub py_eq : Json → Json → Bool
  py_eq null null = true
  py_eq (bool b) (bool c) = bool_eq b c
  py_eq (bool b) (int n) = int_eq (bool_int b) n
  py_eq (int m) (int n) = int_eq m n
  py_eq (int m) (bool c) = int_eq m (bool_int c)
  py_eq (str s) (str t) = text_eq s t
  py_eq (arr xs) (arr ys) = items_eq xs ys
  py_eq (obj fs) (obj gs) = field_count fs == field_count gs && fields_within fs gs
  py_eq _ _ = false

  items_eq : Items → Items → Bool
  items_eq nil nil = true
  items_eq (cons x xs) (cons y ys) = py_eq x y && items_eq xs ys
  items_eq _ _ = false

  fields_within : Fields → Fields → Bool
  fields_within end gs = true
  fields_within (field k v fs) gs = elim (lookup k gs) [
    | none ↦ false
    | some w ↦ py_eq v w && fields_within fs gs
  ]
