-- ===== src/Base/Objects.antt =====
-- Python objects that the code carries and does not look into, but for their truth value and their
-- `str()`: what a host or a model puts into a `dict[str, Any]`.
use Prim.Native.String.{String}
use mathlib.Core.Bool.{Bool, not}
use deepkeel.Base.Classes.{◌==◌, string_eq}

pub record Objects (Any : Type 0) : Type 0 where
  pub truthy : Any → Bool
  pub to_str : Any → String

-- Texts are such objects.
instance abbrev pub text_objects : Objects String
text_objects = record { truthy = λ s. not (s == ""); to_str = λ s. s }
