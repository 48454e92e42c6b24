-- ===== src/Handlers/Names/Texts.antt =====
-- The texts of full names.
use alkali.Prelude.{ℕ, ◌≡◌, refl, sym, ◌∙◌, false, List, [], ◌∷◌, ◌++◌, inl, inr, ◌⊎◌}
use alkali.Lang.Token.{Text}
use alkali.Handlers.Maps.{any_of}
use alkali.Handlers.Sets.{not_any_of-cons}
use alkali.Handlers.Names.{HandlerFullName, suffix, join}

-- Nothing, or the mark and what follows it.
Marked : ℕ → Text → Type 0
Marked mark s = (s ≡ []) ⊎ ((t : Text) × (s ≡ mark ∷ t))

head-eq : {A : Type 0} {x y : A} {xs ys : List A} → x ∷ xs ≡ y ∷ ys → x ≡ y
head-eq e = cc e

tail-eq : {A : Type 0} {x y : A} {xs ys : List A} → x ∷ xs ≡ y ∷ ys → xs ≡ ys
tail-eq e = cc e

suffix-Marked : (mark : ℕ) (name : HandlerFullName) → Marked mark (suffix mark name)
unfolding suffix Marked
suffix-Marked mark name = go name.atom
  where
    go :
        (atom : Text)
        → ((elim atom [ [] ↦ [] | c ∷ cs ↦ mark ∷ c ∷ cs ]) ≡ [])
          ⊎ ((t : Text) × ((elim atom [ [] ↦ [] | c ∷ cs ↦ mark ∷ c ∷ cs ]) ≡ mark ∷ t))
    go [] = inl refl
    go (c ∷ cs) = inr (c ∷ cs, refl)

suffix-injective :
    (mark : ℕ) (n n' : HandlerFullName) → suffix mark n ≡ suffix mark n' → n.atom ≡ n'.atom
unfolding suffix
suffix-injective mark n n' = go n.atom n'.atom
  where
    go :
        (a a' : Text)
        → (elim a [ [] ↦ [] | c ∷ cs ↦ mark ∷ c ∷ cs ])
          ≡ (elim a' [ [] ↦ [] | c ∷ cs ↦ mark ∷ c ∷ cs ])
        → a ≡ a'
    go [] [] e = refl
    go [] (c ∷ cs) e = absurd (cc e)
    go (c ∷ cs) [] e = absurd (cc e)
    go (c ∷ cs) (c' ∷ cs') e = tail-eq e

split-Marked :
    (mark : ℕ) (e e' s s' : Text)
    → any_of e mark ≡ false
    → any_of e' mark ≡ false
    → Marked mark s
    → Marked mark s'
    → e ++ s ≡ e' ++ s'
    → (e ≡ e') × (s ≡ s')
unfolding Marked
split-Marked mark [] [] s s' h h' m m' q = (refl, q)
split-Marked mark (c ∷ e) (c' ∷ e') s s' h h' m m' q =
    let (n, k) = not_any_of-cons c mark e h in
    let (n', k') = not_any_of-cons c' mark e' h' in
    let (es, ss) = split-Marked mark e e' s s' k k' m m' (tail-eq q) in (cc (head-eq q, es), ss)
split-Marked mark [] (c ∷ e') s s' h h' m m' q =
    let (n, k) = not_any_of-cons c mark e' h' in
    elim m [ inl z ↦ absurd (cc (z, q)) | inr (t, z) ↦ absurd (n (sym (head-eq (sym z ∙ q)))) ]
split-Marked mark (c ∷ e) [] s s' h h' m m' q =
    let (n, k) = not_any_of-cons c mark e h in
    elim m' [ inl z ↦ absurd (cc (z, q)) | inr (t, z) ↦ absurd (n (head-eq (q ∙ z))) ]

-- A joined name tells the event and the atom apart where no event has a colon.
pub join-injective :
    (n n' : HandlerFullName)
    → any_of n.event b':' ≡ false
    → any_of n'.event b':' ≡ false
    → join n ≡ join n'
    → n ≡ n'
unfolding join
join-injective n n' h h' q =
    let (e, s) =
      split-Marked b':' n.event n'.event (suffix b':' n) (suffix b':' n') h h'
        (suffix-Marked b':' n) (suffix-Marked b':' n') q in
    let a = suffix-injective b':' n n' s in cc (e, a)
