-- ===== src/Contexts/Texts.antt =====
-- Comparing texts.
use alkali.Prelude.{◌≡◌, refl, true, false, [], ◌∷◌, arith, ◌≢◌}
use alkali.Lang.Token.{Text}
use alkali.Lang.Lexer.Chars.{same_text}

pub same_text_refl : (s : Text) → same_text s s ≡ true
unfolding same_text
same_text_refl [] = refl
same_text_refl (c ∷ s) = ground (arith, same_text_refl s)

pub same_text-eq : (s t : Text) → same_text s t ≡ true → s ≡ t
unfolding same_text
same_text-eq [] [] h = refl
same_text-eq [] (c ∷ t) h = absurd (cc h)
same_text-eq (c ∷ s) [] h = absurd (cc h)
same_text-eq (c ∷ s) (d ∷ t) h = grind (arith, same_text-eq s t)

pub same_text-ne : (s t : Text) → s ≢ t → same_text s t ≡ false
unfolding same_text
same_text-ne s t ne = grind (arith, same_text-eq s t)
