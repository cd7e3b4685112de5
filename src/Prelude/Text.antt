-- ===== src/Prelude/Text.antt =====
-- A text of the source as the list of its bytes; the texts are ASCII.
use Prim.Native.Nat.{ℕ}
use Prim.Native.Char.{code}
use Prim.Native.String.{String}
use Prim.Native.String as Text
use mathlib.Core.List.{List, [], ◌∷◌}

unfoldable pub ascii : String → List ℕ
ascii Text.[] = []
ascii (Text.◌∷◌ c s) = code c ∷ ascii s
