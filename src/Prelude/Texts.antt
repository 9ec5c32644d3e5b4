-- ===== src/Prelude/Texts.antt =====
-- Texts as Python handles them where they may be missing or empty.
use Prim.Native.String.{String, ◌++◌ as str_append}
use mathlib.Core.List.{List, [], ◌∷◌}
use mathlib.Core.Option.{Option, none, some}
use marcus.Prelude.Equality.{◌==◌, string_eq}
use marcus.Prelude.Lists.{any}
use marcus.Prelude.Tests.{if◌then◌else◌}

-- `s + t`
abbrev pub concat : String → String → String
concat s t = str_append s t

-- `s or default`: an empty text counts as false.
abbrev pub or_text : Option String → String → String
or_text none default = default
or_text (some s) default = if s == "" then default else s

-- A set as the list of its elements.
abbrev pub set_of : List String → List String
set_of [] = []
set_of (x ∷ xs) = let s = set_of xs in if any (λ y. y == x) s then s else x ∷ s
