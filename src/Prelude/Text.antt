-- ===== src/Prelude/Text.antt =====
-- The bytes of an ASCII text, for the constants of the source.
use Prim.Native.Char.{code}
use Prim.Native.String.{String}
use mathlib.Core.List.{[], ◌∷◌}
use package.molia.Prelude.Words.{Bytes}

unfoldable pub codes : String → Bytes
codes String.[] = []
codes (String.◌∷◌ c s) = code c ∷ codes s
