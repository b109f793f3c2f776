-- ===== src/Neuron.antt =====
-- src/plexo/neuron/neuron.py: a type with its namespace and codec. Two neurons are equal, as keys
-- too, when their names are.
use pyplexo.Base.{String, string_key, Option, none, some, Bool, [], ◌∷◌, ite, true, false}
use pyplexo.Codec.{Codec, Encoded}
use pyplexo.Exceptions.{Result}
use pyplexo.Namespace.{Namespace, with_suffix}
use pyplexo.Schema.{Value}

pub record Neuron : Type 0 where
  pub namespace : Namespace
  pub codec : Codec
  pub type_name_alias : String

-- `type_name_alias or self.type.__name__`: an empty alias counts as none.
unfoldable pub alias_or : Option String → String → String
alias_or none type_name = type_name
alias_or (some a) type_name = ite (string_key.dec a "") type_name a

-- `Neuron(_type, namespace, codec, type_name_alias)`, with `_type.__name__` for the type
unfoldable pub init : String → Namespace → Codec → Option String → Neuron
unfolding alias_or
init type_name ns codec alias = record {
  namespace = ns;
  codec = codec;
  type_name_alias = alias_or alias type_name;
}

unfoldable pub name : Neuron → String
unfolding with_suffix
name n = with_suffix n.namespace (n.type_name_alias ∷ n.codec.name ∷ [])

unfoldable pub name_without_codec : Neuron → String
unfolding with_suffix
name_without_codec n = with_suffix n.namespace (n.type_name_alias ∷ [])

-- `__eq__`
unfoldable pub equal : Neuron → Neuron → Bool
unfolding name
equal n m = ite (string_key.dec (name n) (name m)) true false

unfoldable pub encode : Neuron → Value → Result Encoded
encode n v = n.codec.encode v

unfoldable pub decode : Neuron → Encoded → Result Value
decode n e = n.codec.decode e
