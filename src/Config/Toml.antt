-- ===== src/Config/Toml.antt =====
-- TomlEncodeVisitor and TomlDecodeVisitor of src/extends/small_config/small_toml/small_toml.h. The
-- top of nowObjs_ is the last argument: it is pushed for a call of Accept and popped after it.
pub mod Client
pub mod Fits
pub mod RoundTrip
pub mod Tests
use sheep_cpp.Base.{ℕ, ◌%◌, ◌^◌, Bool, Option, none, some, List}
use sheep_cpp.Config.{Kind, unsigned, signed, to_int64}

-- What a member of an element is, as the overloads of Encode and Decode tell them apart; a double
-- is its pattern of 64 bits. An element is the calls that its Accept makes, in order.
mutual
  pub data Field : Type 0 where
    number : Kind → ℕ → ℕ → Field
    boolean : Bool → Field
    real : ℕ → Field
    text : List ℕ → Field
    nested : Element → Field

  pub data Element : Type 0 where
    end : Element
    field : List ℕ → Field → Element → Element

-- What the visitors call of toml::Value, on values of a type V: the value of no type, the
-- constructors, setChild, find, and is with as for an int of that many bits and the other types.
pub record Toml (V : Type 0) : Type 0 where
  pub null : V
  pub of_int : ℕ → ℕ → V
  pub of_bool : Bool → V
  pub of_double : ℕ → V
  pub of_string : List ℕ → V
  pub set_child : List ℕ → V → V → V
  pub find : List ℕ → V → Option V
  pub as_int : ℕ → V → Option ℕ
  pub as_bool : V → Option Bool
  pub as_double : V → Option ℕ
  pub as_string : V → Option (List ℕ)

-- A child of another type leaves the element as it is, and so does a missing one.
unfoldable pub assign_if : {A : Type 0} → (A → Field) → Field → Option A → Field
assign_if make f none = f
assign_if make f (some a) = make a

unfoldable pub if_found : {V : Type 0} → (V → Field) → Field → Option V → Field
if_found decode f none = f
if_found decode f (some v) = decode v

module _ {V : Type 0} (r : Toml V) where
  -- Encode; a number that is unsigned is converted to int64_t.
  unfoldable mutual
    unfolding to_int64

    pub encode_all : Element → V → V
    encode_all end obj = obj
    encode_all (field name f e) obj = encode_all e (r.set_child name (encode f) obj)

    pub encode : Field → V
    encode (number unsigned w x) = r.of_int 64 (to_int64 unsigned w x)
    encode (number signed w x) = r.of_int w x
    encode (boolean b) = r.of_bool b
    encode (real d) = r.of_double d
    encode (text s) = r.of_string s
    encode (nested e) = encode_all e r.null

  -- Decode, and its work on the child that is found.
  unfoldable mutual
    unfolding assign_if if_found

    pub decode_all : Element → V → Element
    decode_all end obj = end
    decode_all (field name f e) obj =
        field name (if_found (decode f) f (r.find name obj)) (decode_all e obj)

    pub decode : Field → V → Field
    decode (number unsigned w x) v =
        assign_if (λ i. number unsigned w (i % 2 ^ w)) (number unsigned w x) (r.as_int 64 v)
    decode (number signed w x) v =
        assign_if (λ i. number signed w i) (number signed w x) (r.as_int w v)
    decode (boolean b) v = assign_if (λ c. boolean c) (boolean b) (r.as_bool v)
    decode (real d) v = assign_if (λ c. real c) (real d) (r.as_double v)
    decode (text s) v = assign_if (λ t. text t) (text s) (r.as_string v)
    decode (nested e) v = nested (decode_all e v)
