-- ===== src/Handlers/Components/Undirected.antt =====
-- The first loops of `getConnectedComponents`: in-degrees, and edges back.
use alkali.Prelude.{
  ℕ, suc, ◌+◌, ◌≡◌, refl, sym, ap, ◌∙◌, subst, true, false, List, [], ◌∷◌, ◌==◌, ==_iff, arith, ℤ,
  pos, sucℤ, Bool-cases, inl, inr,
}
use alkali.Handlers.Maps.{at, any_of, at-put, at-put_other}
use alkali.Handlers.Components.{Graph, Degrees, add_edge, add_edges, add_all, degrees}

-- How often a handler stands in a list.
abbrev pub count : ℕ → List ℕ → ℕ
count v [] = 0
count v (x ∷ xs) = elim (x == v) [ true ↦ suc (count v xs) | false ↦ count v xs ]

-- The edges to `v` from handlers that are not done.
abbrev pub open_edges : Graph → List ℕ → ℕ → ℕ
open_edges [] done v = 0
open_edges ((u, ts) ∷ g) done v = elim (any_of done u) [
  | true ↦ open_edges g done v
  | false ↦ count v ts + open_edges g done v
]

abbrev pub degree : Degrees → ℕ → ℤ
degree d v = at (pos 0) d.in_degree v

add_edge-degree :
    (handler target v n : ℕ) (d : Degrees)
    → degree d v ≡ pos n
    → degree (add_edge handler target d) v ≡ pos (count v (target ∷ []) + n)
unfolding add_edge
add_edge-degree handler target v n d e = elim (Bool-cases (target == v)) [
  | inl h ↦
      let same : target ≡ v = (==_iff target v).0 h in
      let one : count v (target ∷ []) ≡ 1 = rw (h, count) in
      subst (λ t. degree (add_edge handler target d) t ≡ pos (count v (target ∷ []) + n)) same
        (at-put (pos 0) target (sucℤ (degree d target)) d.in_degree
          ∙ (ap sucℤ (subst (λ t. degree d t ≡ pos n) (sym same) e) ∙ ap pos (omega (arith, one))))
  | inr h ↦
      let none : count v (target ∷ []) ≡ 0 = rw (h, count) in
      at-put_other (pos 0) target v (sucℤ (degree d target)) d.in_degree
        (λ same. cc (h, (==_iff target v).1 (sym same)))
      ∙ (e ∙ ap pos (omega (arith, none)))
]

pub count-cons : (v x : ℕ) (xs : List ℕ) → count v (x ∷ xs) ≡ count v (x ∷ []) + count v xs
count-cons v x xs = ground arith

add_edges-degree :
    (handler v : ℕ) (targets : List ℕ) (n : ℕ) (d : Degrees)
    → degree d v ≡ pos n
    → degree (add_edges handler targets d) v ≡ pos (count v targets + n)
unfolding add_edges
add_edges-degree handler v [] n d e = e ∙ ap pos (omega arith)
add_edges-degree handler v (target ∷ targets) n d e =
    add_edges-degree handler v targets (count v (target ∷ []) + n) (add_edge handler target d)
      (add_edge-degree handler target v n d e)
    ∙ ap pos (omega (arith, count-cons v target targets))

add_all-degree :
    (v : ℕ) (g : Graph) (n : ℕ) (d : Degrees)
    → degree d v ≡ pos n
    → degree (add_all g d) v ≡ pos (open_edges g [] v + n)
unfolding add_all any_of
add_all-degree v [] n d e = e ∙ ap pos (omega arith)
add_all-degree v ((handler, targets) ∷ g) n d e =
    add_all-degree v g (count v targets + n) (add_edges handler targets d)
      (add_edges-degree handler v targets n d e)
    ∙ ap pos (omega arith)

-- The in-degree of a handler is the number of edges to it.
pub degrees-open_edges : (g : Graph) (v : ℕ) → degree (degrees g) v ≡ pos (open_edges g [] v)
unfolding degrees at
degrees-open_edges g v =
    add_all-degree v g 0 (record { undirected_graph = g; in_degree = [] }) refl
    ∙ ap pos (omega arith)
