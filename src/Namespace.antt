-- ===== src/Namespace.antt =====
-- src/plexo/namespace: dotted names.
use Prim.Native.String.{◌++◌}
use pyplexo.Base.{String, List, [], ◌∷◌}

-- `delimiter.join(parts)`
pub join : String → List String → String
join d [] = ""
join d (p ∷ []) = p
join d (p ∷ q ∷ ps) = p ++ (d ++ join d (q ∷ ps))

pub record Namespace : Type 0 where
  pub delimiter : String
  pub path : String

-- `Namespace(parts, delimiter)`
unfoldable pub init : List String → String → Namespace
unfolding join
init parts d = record { delimiter = d; path = join d parts }

unfoldable pub with_suffix : Namespace → List String → String
unfolding join
with_suffix n suffix = join n.delimiter (n.path ∷ suffix)

-- `plexo_namespace`
unfoldable pub plexo_namespace : Namespace
unfolding init
plexo_namespace = init ("dev" ∷ "plexo" ∷ []) "."
