-- ===== src/Config.antt =====
-- src/extends/small_config: elements that are written as JSON or TOML and read back. A string is a
-- list of bytes, and a number of w bits is its pattern below 2 ^ w.
pub mod Json
pub mod Toml
pub mod Client
pub mod Tests
use sheep_cpp.Base.{ℕ, ◌+◌, ◌-◌, ◌^◌, Bool, true, false, List, [], ◌∷◌, if◌then◌else◌, ltb, ◌==◌}

-- std::is_unsigned and std::is_signed
pub data Kind : Type 0 where
  unsigned signed : Kind

-- What a member of an element is, as the overloads of Encode and Decode tell them apart: a vector
-- has with it the item that `T t;` makes. An element is the calls that its Accept makes, in order.
mutual
  pub data Field : Type 0 where
    number : Kind → ℕ → ℕ → Field
    boolean : Bool → Field
    text : List ℕ → Field
    nested : Element → Field
    vector : Item → Items → Field

  pub data Item : Type 0 where
    whole : Kind → ℕ → ℕ → Item
    flag : Bool → Item
    chars : List ℕ → Item
    sub : Element → Item

  pub data Items : Type 0 where
    nil : Items
    cons : Item → Items → Items

  pub data Element : Type 0 where
    end : Element
    field : List ℕ → Field → Element → Element

-- push_back of all
unfoldable pub append : Items → Items → Items
append nil ys = ys
append (cons x xs) ys = cons x (append xs ys)

-- What c_str shows: the bytes before the first 0.
unfoldable pub c_str : List ℕ → List ℕ
c_str [] = []
c_str (x ∷ xs) = let rest = c_str xs in if x == 0 then [] else x ∷ rest

-- The conversion of a number of w bits to int64_t, as a pattern of 64 bits.
unfoldable pub to_int64 : Kind → ℕ → ℕ → ℕ
to_int64 unsigned w x = x
to_int64 signed w x = if ltb x (2 ^ (w - 1)) then x else x + (2 ^ 64 - 2 ^ w)

-- Why reading stopped: the strings that the visitors throw, with the name in them, or an assertion
-- of the JSON library.
pub data Fault : Type 0 where
  invalid not_a_string not_a_array wrong_fomat_object : List ℕ → Fault
  asserts : Fault

-- The error of a call: what Parse or a file says, or what was caught. An assertion ends the
-- program instead.
pub data Error : Type 0 where
  fine parse_error : Error
  open_failed : List ℕ → Error
  caught : Fault → Error
