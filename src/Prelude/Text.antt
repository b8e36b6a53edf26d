-- ===== src/Prelude/Text.antt =====
-- Texts: what `format!` puts together, and Rust's `contains`.
use Prim.Native.String.{String, ◌++◌}
use mathlib.Core.Bool.{Bool}
use mathlib.Core.List.{List, [], ◌∷◌}
use text.Mathlib.Text.{find?, ◌==◌}
use thalamic_relay.Prelude.Tests.{is_some}

-- The pieces of a `format!`, in order.
abbrev pub concat : List String → String
concat [] = ""
concat (s ∷ rest) = s ++ concat rest

abbrev pub contains : String → String → Bool
contains s t = is_some (find? s t)

-- Rust's `==` on texts.
abbrev pub same_text : String → String → Bool
same_text s t = s == t
