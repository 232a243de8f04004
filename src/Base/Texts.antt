-- ===== src/Base/Texts.antt =====
-- Texts by their first character.
use Prim.Native.String
use Prim.Native.String.{String}
use Prim.Native.Char.{Char, code}
use mathlib.Core.Path.{sym, ap, ◌∙◌}
use mathlib.Core.Logic.{◌≢◌}
use text.Mathlib.TextLemmas.{cons-append, head-eq_of_cons-eq}

pub first_differs :
    (c d : Char) (s t a b : String)
    → code c ≢ code d
    → String.◌++◌ (String.◌∷◌ c s) a ≢ String.◌++◌ (String.◌∷◌ d t) b
first_differs c d s t a b h e =
    h (ap code (head-eq_of_cons-eq (sym (cons-append c s a) ∙ e ∙ cons-append d t b)))
