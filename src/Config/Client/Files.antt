-- ===== src/Config/Client/Files.antt =====
-- JsonClient of src/extends/small_config/small_config.h, through a file and back.
use sheep_cpp.Base.{ℕ, ◌≡◌, refl, ap, ◌∙◌, Bool, true, Option, none, some, List, []}
use sheep_cpp.Config.{Element, c_str, fine, parse_error}
use sheep_cpp.Config.Json.{Rapidjson, encode_all, decode_all}
use sheep_cpp.Config.Json.Fits.{IsRapidjson, Fits}
use sheep_cpp.Config.Json.RoundTrip.{decode_all-encode_all}
use sheep_cpp.Config.Client.{
  Disk, ended, unserialize, contents, file_to_string, string_to_file, serialize_json,
  unserialize_json, serialize_json_to_file, unserialize_json_from_file,
}
use sheep_cpp.HttpParser.Map.{same_refl}

module _ {V : Type 0} (r : Rapidjson V) (write : V → List ℕ) (parse : List ℕ → Option V) where
  -- What the writer writes for a document has no byte 0 and is parsed as this document.
  abbrev pub Writes : V → Type 0
  Writes v = (c_str (write v) ≡ write v) × (parse (write v) ≡ some v)

  text_back :
      (e b : Element)
      → IsRapidjson r
      → Writes (encode_all r e r.object)
      → Fits e b
      → unserialize_json r write parse fine b (serialize_json r write parse e) ≡ (e, fine)
  unfolding serialize_json unserialize_json unserialize ended
  text_back e b laws w h =
      let (q, p) = w in
      ap (λ t. unserialize (decode_all r) fine b (parse (c_str t))) q
      ∙ ap (λ t. unserialize (decode_all r) fine b (parse t)) q
      ∙ ap (λ o. unserialize (decode_all r) fine b o) p
      ∙ ap ended (decode_all-encode_all r laws e b h)

  -- Where rapidjson keeps to its documentation and what it writes for e is parsed as the same
  -- document, e is an element whose names differ in each part, with numbers of 32 or 64 bits,
  -- no byte 0 in its strings outside vectors and the unsigned numbers in vectors below 2 ^ 63,
  -- and b has its members with empty vectors: if the file can be opened, SerializeJsonToFile
  -- reports no error, and UnSerializeJsonFromFile of this file into b then gives e and no
  -- error.
  pub json_file_round_trip :
      (opens : List ℕ → Bool) (e b : Element) (name : List ℕ) (disk : Disk)
      → IsRapidjson r
      → Writes (encode_all r e r.object)
      → Fits e b
      → opens name ≡ true
      → ((serialize_json_to_file r write parse opens e name disk fine).0 ≡ fine)
        × (unserialize_json_from_file r write parse
              (serialize_json_to_file r write parse opens e name disk fine).1
              name
              fine
              b
            ≡ (e, fine))
  unfolding serialize_json_to_file unserialize_json_from_file string_to_file file_to_string contents
  json_file_round_trip opens e b name disk laws w h o =
      let back = text_back e b laws w h in (rw o refl, rw (o, same_refl name) back)

  -- Where a file cannot be opened and an empty text is no JSON, UnSerializeJsonFromFile reports an
  -- error of parsing, and not the name of the file.
  json_missing_file :
      (e : Element) (name : List ℕ) (disk : Disk)
      → disk name ≡ none
      → parse [] ≡ none
      → unserialize_json_from_file r write parse disk name fine e ≡ (e, parse_error)
  unfolding unserialize_json_from_file file_to_string contents unserialize_json unserialize c_str
  json_missing_file e name disk h p = rw (h, p) refl
