-- ===== src/Text/Suffix.antt =====
-- Two texts with suffixes of one length are equal only part by part.
use Prim.Native.Char.{Char}
use Prim.Native.String
use Prim.Native.String.{[], ◌∷◌}
use text.Mathlib.TextLemmas.{cons-append, nil-append, head-eq_of_cons-eq, tail-eq_of_cons-eq}
use minepanel_backend.Common.{suc, ◌+◌, String, ◌≡◌, refl, sym, ap, ◌∙◌, arith}
use minepanel_backend.Text.{count_chars}

pub count_chars-append :
    (s t : String) → count_chars (String.◌++◌ s t) ≡ count_chars s + count_chars t
unfolding count_chars
count_chars-append [] t = ap count_chars (nil-append t) ∙ omega arith
count_chars-append (c ∷ s) t =
    ap count_chars (cons-append c s t) ∙ ap suc (count_chars-append s t) ∙ omega arith

longer : (c : Char) (b d t : String) → count_chars t ≡ count_chars d → t ≡ String.◌++◌ (c ∷ b) d → ⊥
unfolding count_chars
longer c b d t same e =
    let size : count_chars d ≡ suc (count_chars b) + count_chars d =
      sym same ∙ ap count_chars e ∙ count_chars-append (c ∷ b) d in
    omega (arith, size)

pub cancel_suffix :
    (a b s t : String)
    → count_chars s ≡ count_chars t
    → String.◌++◌ a s ≡ String.◌++◌ b t
    → (a ≡ b) × (s ≡ t)
cancel_suffix [] [] s t same e = (refl, sym (nil-append s) ∙ e ∙ nil-append t)
cancel_suffix [] (c ∷ b) s t same e = absurd (longer c b t s same (sym (nil-append s) ∙ e))
cancel_suffix (c ∷ a) [] s t same e =
    absurd (longer c a s t (sym same) (sym (nil-append t) ∙ sym e))
cancel_suffix (c ∷ a) (d ∷ b) s t same e =
    let whole : c ∷ String.◌++◌ a s ≡ d ∷ String.◌++◌ b t =
      sym (cons-append c a s) ∙ e ∙ cons-append d b t in
    let (rest, ends) = cancel_suffix a b s t same (tail-eq_of_cons-eq whole) in
    (ap (λ x. x ∷ a) (head-eq_of_cons-eq whole) ∙ ap (λ x. d ∷ x) rest, ends)
