-- ===== src/Handlers/Dependencies/Lookups.antt =====
-- The targets of a list of returns are what `lookupHandler` gives for each.
use alkali.Prelude.{
  ℕ, ◌≡◌, refl, sym, ap, ◌∙◌, List, [], ◌∷◌, Option, none, some, some-chain, none-chain,
  Option-cases, ◌>>=◌, Bool-cases, inl, inr,
}
use alkali.Handlers.Names.{
  HandlerFullName, HandlerOp, NameMap, find_name, find_general, lookup_handler,
}
use alkali.Handlers.Dependencies.{Forwards, find_forwards, forward_targets, add_target, add_targets}

-- The handlers that the returns of one lead to.
abbrev pub lookups : NameMap → List HandlerFullName → Option (List ℕ)
lookups handlers [] = some []
lookups handlers (target ∷ to) =
    lookup_handler handlers target
    >>= (λ op. lookups handlers to >>= (λ rest. some (op.key ∷ rest)))

pub forward_targets-none :
    (handlers : NameMap) (target : HandlerFullName) (to : List HandlerFullName)
    → find_name target handlers ≡ none
    → forward_targets handlers target to ≡ []
unfolding forward_targets
forward_targets-none handlers target [] e = refl
forward_targets-none handlers target (t ∷ to) e =
    let eq : forward_targets handlers target (t ∷ to) ≡ forward_targets handlers target to =
      rw (e, forward_targets) in
    eq ∙ forward_targets-none handlers target to e

-- The extern forwards change nothing.
pub add_target-lookup :
    (handlers : NameMap) (forwards : Forwards) (target : HandlerFullName)
    → add_target handlers forwards target
      ≡ (lookup_handler handlers target >>= (λ op. some (op.key ∷ [])))
unfolding add_target lookup_handler
add_target-lookup handlers forwards target =
    go (find_name target handlers) refl (find_general target.event handlers) refl
  where
    go :
        (o : Option HandlerOp)
        → find_name target handlers ≡ o
        → (g : Option HandlerOp) → find_general target.event handlers ≡ g
        → add_target handlers forwards target
          ≡ (lookup_handler handlers target >>= (λ op. some (op.key ∷ [])))
    go (some op) e g e' =
        let l : lookup_handler handlers target ≡ some op = rw (e, lookup_handler) in
        let a : add_target handlers forwards target ≡ some (op.key ∷ []) = rw (e, add_target) in
        a ∙ sym (some-chain _ l refl)
    go none e none e' =
        let l : lookup_handler handlers target ≡ none = rw (e, e', lookup_handler) in
        let a : add_target handlers forwards target ≡ none = rw (e, e', add_target) in
        a ∙ sym (none-chain _ l)
    go none e (some op) e' =
        let l : lookup_handler handlers target ≡ some op = rw (e, e', lookup_handler) in
        let f = forward_targets-none handlers target in
        let a : add_target handlers forwards target ≡ some (op.key ∷ []) =
          elim (Bool-cases op.is_extern) [
            | inr x ↦ rw (e, e', x, add_target)
            | inl x ↦ elim (Option-cases (find_forwards target.event forwards)) [
              | inl n ↦ rw (e, e', x, n, add_target)
              | inr (to, h) ↦ (let f' = f to e in rw (e, e', x, h, add_target, f'))
            ]
          ] in
        a ∙ sym (some-chain _ l refl)

-- The targets that the analysis adds for a list of returns are what lookupHandler gives for each,
-- whatever the extern forwards are, and undefined where that is null: the search for extern forwards
-- adds none.
pub add_targets-lookups :
    (handlers : NameMap) (forwards : Forwards) (to : List HandlerFullName)
    → add_targets handlers forwards to ≡ lookups handlers to
unfolding add_targets
add_targets-lookups handlers forwards [] = refl
add_targets-lookups handlers forwards (target ∷ to) =
    let one = add_target-lookup handlers forwards target in
    let rest = add_targets-lookups handlers forwards to in
    elim (Option-cases (lookup_handler handlers target)) [
      | inl n ↦ none-chain _ (one ∙ none-chain _ n) ∙ sym (none-chain _ n)
      | inr (op, l) ↦
          some-chain _ (one ∙ some-chain _ l refl)
            (ap (λ o. o >>= (λ rest. some (op.key ∷ rest))) rest)
          ∙ sym (some-chain _ l refl)
    ]
