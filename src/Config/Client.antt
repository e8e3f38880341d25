-- ===== src/Config/Client.antt =====
-- src/extends/small_config/small_config.h: elements as text and in files.
pub mod Files
use sheep_cpp.Base.{ℕ, Bool, true, false, Option, none, some, List, [], if◌then◌else◌}
use sheep_cpp.Config.{Element, Fault, c_str, Error, fine, parse_error, open_failed, caught}
use sheep_cpp.Config.Json.{Rapidjson, encode_all, decode_all}
use sheep_cpp.HttpParser.Map.{same}

-- The end of a decoding whose throw is caught.
unfoldable pub ended : {E : Type 0} → E × Option Fault → E × Error
ended (e, none) = (e, fine)
ended (e, some fault) = (e, caught fault)

-- UnSerialize, on what Parse gives: an error that was there before, or of Parse, leaves the element
-- alone.
unfoldable pub unserialize :
    {E V : Type 0} → (E → V → E × Option Fault) → Error → E → Option V → E × Error
unfolding ended
unserialize decode error e none = (e, parse_error)
unserialize decode fine e (some v) = ended (decode e v)
unserialize decode error e (some v) = (e, error)

-- The files, by name.
abbrev pub Disk : Type 0
Disk = List ℕ → Option (List ℕ)

unfoldable pub contents : List ℕ → Error → Option (List ℕ) → Error × List ℕ
contents name error none = (open_failed name, [])
contents name error (some text) = (error, text)

unfoldable pub file_to_string : Disk → List ℕ → Error → Error × List ℕ
unfolding contents
file_to_string disk name error = contents name error (disk name)

-- String2File, where `opens` says which files can be opened for writing.
unfoldable pub string_to_file : (List ℕ → Bool) → List ℕ → List ℕ → Disk → Error → Error × Disk
unfolding same
string_to_file opens text name disk error =
    if opens name
    then (error, λ m. if same m name then some text else disk m)
    else (open_failed name, disk)

-- JsonClient, on rapidjson's writer and parser, which reads up to the first byte 0.
module _ {V : Type 0} (r : Rapidjson V) (write : V → List ℕ) (parse : List ℕ → Option V) where
  -- Serialize and GetResult; the encoding throws nothing.
  unfoldable pub serialize_json : Element → List ℕ
  unfolding encode_all
  serialize_json e = c_str (write (encode_all r e r.object))

  unfoldable pub unserialize_json : Error → Element → List ℕ → Element × Error
  unfolding unserialize decode_all
  unserialize_json error e text = unserialize (decode_all r) error e (parse (c_str text))

  unfoldable pub serialize_json_to_file :
      (List ℕ → Bool) → Element → List ℕ → Disk → Error → Error × Disk
  unfolding serialize_json string_to_file
  serialize_json_to_file opens e name disk error =
      string_to_file opens (serialize_json e) name disk error

  unfoldable pub unserialize_json_from_file : Disk → List ℕ → Error → Element → Element × Error
  unfolding unserialize_json file_to_string
  unserialize_json_from_file disk name error e =
      let (error1, text) = file_to_string disk name error in unserialize_json error1 e text
