-- ===== src/Codec.antt =====
-- src/plexo/typing/codec.py and src/plexo/codec: a codec has a class, a name and two functions.
-- The serialisers (capnpy, json, pickle) are libraries, so their functions are arguments here.
use pyplexo.Base.{ℕ, ◌≡◌, refl, String, Option, none, some}
use pyplexo.Exceptions.{Result, ok, raise, value_error, attribute_error}
use pyplexo.Schema.{Bytes, Value, text}

-- `EncodedType = Union[ByteString, str]`
pub data Encoded : Type 0 where
  bytes : Bytes → Encoded
  str : String → Encoded

-- What the code relies on of `str.encode("UTF-8")` and `bytes.decode("UTF-8")`.
pub record Utf8 : Type 0 where
  pub encode : String → Bytes
  pub decode : Bytes → Option String
  pub decode-encode : (s : String) → decode (encode s) ≡ some s

pub data CodecClass : Type 0 where
  capnpy_codec json_codec pickle_codec string_codec : CodecClass
  other_codec : ℕ → CodecClass

pub record Codec : Type 0 where
  pub class : CodecClass
  pub name : String
  pub encode : Value → Result Encoded
  pub decode : Encoded → Result Value

-- The functions of a serialiser.
pub record Serialiser : Type 0 where
  pub dumps : Value → Result Bytes
  pub loads : Encoded → Result Value

to_encoded : Result Bytes → Result Encoded
to_encoded (ok b) = ok (bytes b)
to_encoded (raise e) = raise e
to_encoded Result.pending = Result.pending

-- `CapnpyCodec(capnpy_struct)`
unfoldable pub capnpy : Serialiser → Codec
unfolding to_encoded
capnpy struct = record {
  class = capnpy_codec;
  name = "capnp";
  encode = λ v. to_encoded (struct.dumps v);
  decode = struct.loads;
}

-- `PickleCodec()`
unfoldable pub pickle : Serialiser → Codec
unfolding to_encoded
pickle lib = record {
  class = pickle_codec;
  name = "pickle";
  encode = λ v. to_encoded (lib.dumps v);
  decode = lib.loads;
}

-- `JsonCodec(schema_class, serialize_args)`: `serialize` and `from_json` are the library's.
unfoldable pub json : Serialiser → Codec
unfolding to_encoded
json schema_class = record {
  class = json_codec;
  name = "json";
  encode = λ v. to_encoded (schema_class.dumps v);
  decode = schema_class.loads;
}

-- `data.encode("UTF-8")`: only a str has it.
string_encode : Utf8 → Value → Result Encoded
string_encode u (text s) = ok (bytes (u.encode s))
string_encode u _ = raise attribute_error

decoded : Option String → Result Value
decoded none = raise value_error
decoded (some s) = ok (text s)

string_decode : Utf8 → Encoded → Result Value
unfolding decoded
string_decode u (bytes b) = decoded (u.decode b)
string_decode u (str s) = raise attribute_error

-- `StringCodec()`
unfoldable pub string : Utf8 → Codec
unfolding string_encode string_decode
string u = record {
  class = string_codec;
  name = "string_UTF-8";
  encode = string_encode u;
  decode = string_decode u;
}

-- What the string codec makes of a text decodes to that text.
pub string_roundtrip :
    (u : Utf8) (s : String)
    → (e : Encoded) × ((string u).encode (text s) ≡ ok e) × ((string u).decode e ≡ ok (text s))
unfolding string
string_roundtrip u s = (bytes (u.encode s), refl, rw u.decode-encode)
