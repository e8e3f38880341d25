-- ===== src/Config/Json.antt =====
-- JsonEncodeVisitor and JsonDecodeVisitor of src/extends/small_config/small_json/small_json.h. The
-- top of nowObjs_ is the last argument: it is pushed for a call of Accept and popped after it.
pub mod Fits
pub mod RoundTrip
use sheep_cpp.Base.{
  ℕ, ◌%◌, ◌^◌, ◌==◌, Bool, true, false, not, Option, none, some, List, [], ◌∷◌, if◌then◌else◌,
}
use sheep_cpp.Config.{
  Kind, unsigned, signed, Field, number, boolean, text, nested, vector, Item, whole, flag, chars,
  sub, Items, nil, cons, Element, end, field, append, c_str, to_int64, Fault, invalid, not_a_string,
  not_a_array, wrong_fomat_object, asserts,
}

-- What the visitors call of rapidjson, on values of a type V: kObjectType and kArrayType, the
-- values that Set and SetString make, AddMember, PushBack, IsObject, HasMember with operator[] on
-- an object, Is with Get for a signed number of that many bits, and IsArray with operator[].
pub record Rapidjson (V : Type 0) : Type 0 where
  pub object : V
  pub array : V
  pub of_int64 : ℕ → V
  pub of_uint64 : ℕ → V
  pub of_bool : Bool → V
  pub of_string : List ℕ → V
  pub add_member : List ℕ → V → V → V
  pub push_back : V → V → V
  pub is_object : V → Bool
  pub member : List ℕ → V → Option V
  pub get_int : ℕ → V → Option ℕ
  pub get_bool : V → Option Bool
  pub get_string : V → Option (List ℕ)
  pub elements : V → Option (List V)

-- The loop over an array: each value is set into a new item, which is pushed back.
unfoldable pub then_push : Item × Option Fault → Items × Option Fault → Items × Option Fault
then_push (x, some fault) rest = (nil, some fault)
then_push (x, none) (xs, more) = (cons x xs, more)

unfoldable pub set_all : {V : Type 0} → (V → Item × Option Fault) → List V → Items × Option Fault
unfolding then_push
set_all one [] = (nil, none)
set_all one (v ∷ vs) = then_push (one v) (set_all one vs)

-- What a checked value does: it is converted and assigned, or the field stays and the call throws.
unfoldable pub assign : {A : Type 0} → (A → Field) → Field → Fault → Option A → Field × Option Fault
assign make f fault none = (f, some fault)
assign make f fault (some a) = (make a, none)

-- Setting an item of an array: a value of the wrong type fails an assertion.
unfoldable pub set : {A : Type 0} → (A → Item) → Item → Option A → Item × Option Fault
set make x none = (x, some asserts)
set make x (some a) = (make a, none)

-- The values of an array go behind what the vector has; `none` is no array.
unfoldable pub push_values :
    {V : Type 0}
    → Item
    → Items
    → (List V → Items × Option Fault)
    → Fault
    → Option (List V)
    → Field × Option Fault
unfolding append
push_values t xs all fault none = (vector t xs, some fault)
push_values t xs all fault (some vs) = let (ys, more) = all vs in (vector t (append xs ys), more)

-- Decode of a field: without the member it stays.
unfoldable pub if_member :
    {V : Type 0} → (V → Field × Option Fault) → Field → Option V → Field × Option Fault
if_member decode f none = (f, none)
if_member decode f (some v) = decode v

-- The calls of Accept in order: a throw leaves out the rest.
unfoldable pub go_on :
    List ℕ → Element → Field × Option Fault → Element × Option Fault → Element × Option Fault
go_on name e (f, some x) rest = (field name f e, some x)
go_on name e (f, none) (e1, more) = (field name f e1, more)

module _ {V : Type 0} (r : Rapidjson V) where
  -- Encode, by the kinds of fields, and createJsonValue.
  unfoldable mutual
    unfolding c_str to_int64

    pub encode_all : Element → V → V
    encode_all end obj = obj
    encode_all (field name f e) obj = encode_all e (r.add_member name (encode f) obj)

    pub encode : Field → V
    encode (number k w x) = r.of_int64 (to_int64 k w x)
    encode (boolean b) = r.of_bool b
    encode (text s) = r.of_string (c_str s)
    encode (nested e) = encode_all e r.object
    encode (vector t xs) = push_all xs r.array

    pub push_all : Items → V → V
    push_all nil arr = arr
    push_all (cons x xs) arr = push_all xs (r.push_back (create_json_value x) arr)

    pub create_json_value : Item → V
    create_json_value (whole unsigned w x) = r.of_uint64 x
    create_json_value (whole signed w x) = r.of_int64 (to_int64 signed w x)
    create_json_value (flag b) = r.of_bool b
    create_json_value (chars s) = r.of_string s
    create_json_value (sub e) = encode_all e r.object

  -- Decode. The element is as the calls left it, with the fault that ended them.
  unfoldable mutual
    unfolding c_str assign set push_values set_all go_on if_member

    pub decode_all : Element → V → Element × Option Fault
    decode_all end obj = (end, none)
    decode_all (field name f e) obj =
        go_on name e (if_member (decode name f) f (r.member name obj)) (decode_all e obj)

    -- On the member of that name.
    pub decode : List ℕ → Field → V → Field × Option Fault
    decode name (number unsigned w x) v =
        assign (λ i. number unsigned w (i % 2 ^ w)) (number unsigned w x) (invalid name)
          (r.get_int 64 v)
    decode name (number signed w x) v =
        assign (λ i. number signed w (i % 2 ^ w)) (number signed w x) (invalid name) (r.get_int w v)
    decode name (boolean b) v = assign (λ c. boolean c) (boolean b) (invalid name) (r.get_bool v)
    decode name (text s) v =
        assign (λ t. text (c_str t)) (text s) (not_a_string name) (r.get_string v)
    decode name (nested e) v =
        let (e1, fault) = decode_all e v in
        if not (r.is_object v)
        then (nested e, some (wrong_fomat_object name))
        else (nested e1, fault)
    decode name (vector t xs) v =
        push_values t xs (set_all (set_t t)) (not_a_array name) (r.elements v)

    -- setT, on a new item; GetInt64, GetBool and GetString assert the type. The test of the object
    -- around the array holds, as it has the array.
    pub set_t : Item → V → Item × Option Fault
    set_t (whole k w x) v = set (λ i. whole k w (i % 2 ^ w)) (whole k w x) (r.get_int 64 v)
    set_t (flag b) v = set (λ c. flag c) (flag b) (r.get_bool v)
    set_t (chars s) v = set (λ t. chars t) (chars s) (r.get_string v)
    set_t (sub e) v = let (e1, fault) = decode_all e v in (sub e1, fault)
