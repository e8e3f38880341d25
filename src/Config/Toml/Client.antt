-- ===== src/Config/Toml/Client.antt =====
-- TomlClient of src/extends/small_config/small_config.h, and its way through a file and back.
use sheep_cpp.Base.{ℕ, ◌≡◌, refl, Bool, true, Option, none, some, List}
use mathlib.Core.Option.{map}
use sheep_cpp.Config.{Error, fine}
use sheep_cpp.Config.Client.{Disk, ended, unserialize, contents, file_to_string, string_to_file}
use sheep_cpp.Config.Toml.{Toml, Element, encode_all, decode_all}
use sheep_cpp.Config.Toml.Fits.{IsToml, Fits}
use sheep_cpp.Config.Toml.RoundTrip.{decode_all-encode_all}
use sheep_cpp.HttpParser.Map.{same_refl}

-- On the library's writer and parser; the writer throws, with nothing that Serialize catches, where
-- it gives `none`.
module _ {V : Type 0} (r : Toml V) (write : V → Option (List ℕ)) (parse : List ℕ → Option V) where
  -- Serialize and GetResult; the encoding throws nothing.
  unfoldable pub serialize_toml : Element → Option (List ℕ)
  unfolding encode_all
  serialize_toml e = write (encode_all r e r.null)

  -- Decoding throws nothing either.
  unfoldable pub unserialize_toml : Error → Element → List ℕ → Element × Error
  unfolding unserialize decode_all
  unserialize_toml error e text = unserialize (λ e v. (decode_all r e v, none)) error e (parse text)

  -- A throw goes on to the caller.
  unfoldable pub serialize_toml_to_file :
      (List ℕ → Bool) → Element → List ℕ → Disk → Error → Option (Error × Disk)
  unfolding serialize_toml string_to_file
  serialize_toml_to_file opens e name disk error =
      map (λ text. string_to_file opens text name disk error) (serialize_toml e)

  unfoldable pub unserialize_toml_from_file : Disk → List ℕ → Error → Element → Element × Error
  unfolding unserialize_toml file_to_string
  unserialize_toml_from_file disk name error e =
      let (error1, text) = file_to_string disk name error in unserialize_toml error1 e text

  -- What the writer writes for a document is parsed as this document.
  abbrev pub Writes : V → List ℕ → Type 0
  Writes v t = (write v ≡ some t) × (parse t ≡ some v)

  -- Where the TOML library keeps to its documentation and what it writes for e is t and t is
  -- parsed as the same document, e is an element whose names are bare keys and differ in each
  -- part, with numbers of 32 or 64 bits, and b has its members: if the file can be opened,
  -- SerializeTomlToFile reports no error, and UnSerializeTomlFromFile of this file into b then
  -- gives e, whatever b held, and no error.
  pub toml_file_round_trip :
      (opens : List ℕ → Bool) (e b : Element) (name t : List ℕ) (disk : Disk)
      → IsToml r
      → Writes (encode_all r e r.null) t
      → Fits e b
      → opens name ≡ true
      → (after : Disk) × (serialize_toml_to_file opens e name disk fine ≡ some (fine, after))
        × (unserialize_toml_from_file after name fine b ≡ (e, fine))
  unfolding serialize_toml_to_file unserialize_toml_from_file serialize_toml unserialize_toml
      string_to_file file_to_string contents unserialize ended
  toml_file_round_trip opens e b name t disk laws w h o =
      let after = (string_to_file opens t name disk fine).1 in
      (
        after,
        rw (w.0, o) refl,
        rw (o, same_refl name, w.1, decode_all-encode_all r laws e b h) refl,
      )
