-- ===== src/Common/Options.antt =====
-- The defaults of optional values, and the joining of texts.
use Prim.Native.String.{String}
use Prim.Native.String
use mathlib.Core.Option.{Option, none, some}

-- `a ?? b`.
abbrev pub or_else {ℓ} : {A : Type ℓ} → Option A → Option A → Option A
or_else (some a) b = some a
or_else none b = b

-- The same with a text that is there.
abbrev pub or_text : Option String → String → String
or_text (some a) b = a
or_text none b = b

infixr 65 ◌⧺◌
abbrev pub ◌⧺◌ : String → String → String
a ⧺ b = String.◌++◌ a b
