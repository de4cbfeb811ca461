-- ===== src/Base/Strings.antt =====
-- Laws of `push_str`.
use Prim.Native.Char.{Char}
use Prim.Native.String.append
use Prim.Native.String.{String}
use mathlib.Core.Path.{◌≡◌, sym, ap, ◌∙◌}
use buyback.Base.Words.{push_str}

pub cons-push_str :
    (c : Char) (s t : String) → push_str (String.◌∷◌ c s) t ≡ String.◌∷◌ c (push_str s t)
cons-push_str c s t = append.cons c s t

pub nil-push_str : (t : String) → push_str "" t ≡ t
nil-push_str t = append.nil t

pub push_str_assoc : (s t u : String) → push_str (push_str s t) u ≡ push_str s (push_str t u)
push_str_assoc String.[] t u =
    ap (λ (v : String). push_str v u) (nil-push_str t) ∙ sym (nil-push_str (push_str t u))
push_str_assoc (String.◌∷◌ c s) t u =
    ap (λ (v : String). push_str v u) (cons-push_str c s t)
    ∙ cons-push_str c (push_str s t) u
    ∙ ap (String.◌∷◌ c) (push_str_assoc s t u)
    ∙ sym (cons-push_str c s (push_str t u))
