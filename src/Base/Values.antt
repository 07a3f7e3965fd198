-- ===== src/Base/Values.antt =====
-- Values that JSON.parse returns, and JavaScript numbers as far as the program tells them apart.
use mathlib.Core.Path.{◌≡◌, refl}
use mathlib.Core.Bool.{Bool, true}
use mathlib.Core.Option.{Option, none, some}
use Prim.Native.Nat.{ℕ}
use odin_sentinel.Base.Tests.{if◌then◌else◌}
use odin_sentinel.Base.Strings.{Text, text, same}

-- `negsuc n` is -(n + 1).
pub data ℤ : Type 0 where
  pos : ℕ → ℤ
  negsuc : ℕ → ℤ

-- A number of a JSON text: one that Number.isInteger accepts, or another.
pub data Num : Type 0 where
  int : ℤ → Num
  fraction : Num

mutual
  pub data Json : Type 0 where
    null : Json
    bool : Bool → Json
    number : Num → Json
    string : Text → Json
    array : Items → Json
    object : Fields → Json

  pub data Items : Type 0 where
    nil : Items
    cons : Json → Items → Items

  pub data Fields : Type 0 where
    end : Fields
    entry : Text → Json → Fields → Fields

first_of_two : Option Json → Option Json → Option Json
first_of_two (some v) w = some v
first_of_two none w = w

-- fields[k]; `none` is undefined. A later entry of the same name hides an earlier one.
unfoldable pub member : Text → Fields → Option Json
unfolding first_of_two
member k end = none
member k (entry j v rest) = first_of_two (member k rest) (if same j k then some v else none)

member_test :
    member (text "a") (entry (text "a") null (entry (text "a") (bool true) end)) ≡ some (bool true)
unfolding member same
member_test = refl
