-- ===== src/Prelude/Json.antt =====
-- JSON values, as the tool arguments and observations carry them. A number that is not an integer
-- is kept by its digits: no modelled code computes with one.
use Prim.Native.Nat.{ℕ, suc}
use Prim.Native.String.{String}
use mathlib.Core.Bool.{Bool, true, false, ◌&&◌}
use mathlib.Core.Option.{Option, none, some}
use marcus.Prelude.Equality.{◌==◌, string_eq}
use marcus.Prelude.Tests.{ltb, nat_beq, if◌then◌else◌}

-- `negsuc n` is -(n + 1).
pub data ℤ : Type 0 where
  pos : ℕ → ℤ
  negsuc : ℕ → ℤ

abbrev pub int_beq : ℤ → ℤ → Bool
int_beq (pos a) (pos b) = nat_beq a b
int_beq (negsuc a) (negsuc b) = nat_beq a b
int_beq _ _ = false

abbrev pub int_ltb : ℤ → ℤ → Bool
int_ltb (pos a) (pos b) = ltb a b
int_ltb (negsuc a) (negsuc b) = ltb b a
int_ltb (negsuc a) (pos b) = true
int_ltb (pos a) (negsuc b) = false

abbrev pub int_max : ℤ → ℤ → ℤ
int_max a b = if int_ltb a b then b else a

mutual
  pub data Json : Type 0 where
    null : Json
    bool : Bool → Json
    int : ℤ → Json
    decimal : String → Json
    text : String → Json
    arr : Items → Json
    obj : Fields → Json

  pub data Items : Type 0 where
    nil : Items
    cons : Json → Items → Items

  pub data Fields : Type 0 where
    end : Fields
    field : String → Json → Fields → Fields

-- `d.get(key)`: a key that stands twice has its first value.
abbrev pub get : String → Fields → Option Json
get k end = none
get k (field j v fs) = if j == k then some v else get k fs

-- `key in d`
abbrev pub has : String → Fields → Bool
has k end = false
has k (field j v fs) = if j == k then true else has k fs

-- `d.get(key) == value`, for a text
abbrev pub has_text : String → String → Fields → Bool
has_text key value fields = elim (get key fields) [ some (text s) ↦ s == value | _ ↦ false ]

-- `d[key] = v`, and `{**d, key: v}`.
abbrev pub put : String → Json → Fields → Fields
put k w end = field k w end
put k w (field j v fs) = if j == k then field j w fs else field j v (put k w fs)

abbrev count_fields : Fields → ℕ
count_fields end = 0
count_fields (field k v fs) = suc (count_fields fs)

-- Python's `==`: dictionaries without regard to order, and a Boolean as the number 0 or 1.
abbrev bool_int : Bool → ℤ
bool_int true = pos 1
bool_int false = pos 0

unfoldable mutual
  pub json_beq : Json → Json → Bool
  json_beq null null = true
  json_beq (bool a) (bool b) = int_beq (bool_int a) (bool_int b)
  json_beq (bool a) (int b) = int_beq (bool_int a) b
  json_beq (int a) (bool b) = int_beq a (bool_int b)
  json_beq (int a) (int b) = int_beq a b
  json_beq (decimal a) (decimal b) = a == b
  json_beq (text a) (text b) = a == b
  json_beq (arr xs) (arr ys) = items_beq xs ys
  json_beq (obj fs) (obj gs) = nat_beq (count_fields fs) (count_fields gs) && fields_in fs gs
  json_beq _ _ = false

  pub items_beq : Items → Items → Bool
  items_beq nil nil = true
  items_beq (cons x xs) (cons y ys) = json_beq x y && items_beq xs ys
  items_beq _ _ = false

  pub fields_in : Fields → Fields → Bool
  fields_in end gs = true
  fields_in (field k v fs) gs =
      elim (get k gs) [ none ↦ false | some w ↦ json_beq v w ] && fields_in fs gs
