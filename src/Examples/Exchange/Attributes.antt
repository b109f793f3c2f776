-- ===== src/Examples/Exchange/Attributes.antt =====
-- What the programs that exchange messages do with attributes and texts.
use Prim.Native.String.{◌++◌ as ◌++ᵗ◌}
use pyplexo.Base.{String, Option, none, lookup, string_key}
use pyplexo.Schema.{Value, attributes}

-- `value.key`
unfoldable pub attribute : String → Value → Option String
attribute key (attributes class fields) = lookup key fields
attribute key _ = none

-- `f"Hello, Plexo+… {i}"`
unfoldable pub hello : String → String → String
hello greeting i = greeting ++ᵗ i
