-- ===== src/Contexts/Arguments/Edges.antt =====
-- The events along the edges that the dependency analysis finds.
use alkali.Prelude.{
  ℕ, zero, suc, ◌<◌, ◌≡◌, refl, sym, ap, ◌∙◌, subst, Bool, true, false, ◌||◌, List, [], ◌∷◌, ◌++◌,
  Option, some, map, arith, Bool-cases, inl, inr, some-injective, get_elem?,
}
use alkali.Lang.Token.{Text}
use alkali.Lang.Lexer.Chars.{same_text}
use alkali.Handlers.Maps.{any_of}
use alkali.Handlers.Sets.{Unique, any_of-or, any_of-here, any_of-there}
use alkali.Handlers.Components.{Graph, edges, get_connected_components}
use alkali.Handlers.Components.Release.{keys}
use alkali.Handlers.Components.Order.{concat}
use alkali.Handlers.Components.Orders.{get_connected_components-Coloring}
use alkali.Contexts.{Field, TableT, Ref, get_func_name, context_bufferization}
use alkali.Contexts.Texts.{same_text-eq}
use alkali.Contexts.Names.{named, named_in}
use alkali.Contexts.Arguments.{
  Argument, Operand, operand_type, Function, run_on_event, run_on_function,
}
use alkali.Contexts.Arguments.Match.{Fits, run_on_event-Fits}

-- A handler of the orders together is in one of them.
concat-any_of :
    (orders : List (List ℕ)) (v : ℕ)
    → any_of (concat orders) v ≡ true
    → (i : ℕ) × ((order : List ℕ) × (get_elem? orders i ≡ some order) × (any_of order v ≡ true))
unfolding any_of
concat-any_of [] v m = absurd (cc m)
concat-any_of (order ∷ orders) v m = elim (any_of-or order (concat orders) v m) [
  | inl k ↦ (0, (order, refl, k))
  | inr k ↦ (let (i, r) = concat-any_of orders v k in (suc i, r))
]

-- The orders before a place, and behind it.
split-at :
    (orders : List (List ℕ)) (i : ℕ) {order : List ℕ}
    → get_elem? orders i ≡ some order
    → (before : List (List ℕ)) × ((after : List (List ℕ)) × (orders ≡ before ++ (order ∷ after))
        × ((k : ℕ) (o : List ℕ)
            → get_elem? before k ≡ some o
            → (k < i) × (get_elem? orders k ≡ some o)))
split-at [] i e = absurd (cc e)
split-at (x ∷ orders) zero e =
    ([], (orders, ap (λ y. y ∷ orders) (some-injective e), λ k o q. absurd (cc q)))
split-at (x ∷ orders) (suc i) e =
    let (before, (after, q, inside)) = split-at orders i e in
    (x ∷ before, (after, ap (λ ys. x ∷ ys) q, behind before inside))
  where
    behind :
        (before : List (List ℕ))
        → ((k : ℕ) (o : List ℕ)
            → get_elem? before k ≡ some o
            → (k < i) × (get_elem? orders k ≡ some o))
        → (k : ℕ) → (o : List ℕ) → get_elem? (x ∷ before) k ≡ some o
        → (k < suc i) × (get_elem? (x ∷ orders) k ≡ some o)
    behind before inside zero o r = (omega arith, r)
    behind before inside (suc k) o r = let (l, r') = inside k o r in (omega (arith, l), r')

module _ (sym_name : ℕ → Text) where
  named-function :
      (order : List ℕ) (s : Text)
      → named sym_name order s ≡ true
      → (u : ℕ) × ((any_of order u ≡ true) × (sym_name u ≡ s))
  unfolding named any_of
  named-function [] s h = absurd (cc h)
  named-function (u ∷ order) s h = elim (Bool-cases (same_text (sym_name u) s)) [
    | inl e ↦ (u, (any_of-here u order, same_text-eq (sym_name u) s e))
    | inr e ↦
        let (v, (m, q)) = named-function order s (ground (arith, h, e)) in
        (v, (any_of-there u v order m, q))
  ]

  named_in-none :
      (orders : List (List ℕ)) (s : Text)
      → ((k : ℕ) (o : List ℕ) → get_elem? orders k ≡ some o → named sym_name o s ≡ false)
      → named_in sym_name orders s ≡ false
  unfolding named_in
  named_in-none [] s h = refl
  named_in-none (order ∷ orders) s h =
      let first = h 0 order refl in
      let rest = named_in-none orders s (λ k. h (suc k)) in ground (arith, first, rest)

-- The analyses and the pass together: where the functions of a module have different names and the
-- dependency analysis gives the orders, an event along an edge between two handlers of the orders
-- fits the handler that it calls also after the pass, if the operands have the types of the
-- arguments before, and that handler is not external and has a predecessor or is an external
-- forward. The event and the handler are then defined, their types agree, and where the handler
-- takes a context, the names on the event are those on the arguments.
pub run_on_event-edge :
    (iterate : TableT → List (Text × Field)) (sym_name : ℕ → Text) (refs : ℕ → List Ref) (fuel : ℕ)
    (graph : Graph) (h h' : ℕ) (keep_last : Bool) (caller target : Function) (args : List Operand)
    {sub_graphs : List Graph} {orders : List (List ℕ)}
    → Unique (keys graph)
    → get_connected_components fuel graph ≡ some (sub_graphs, orders)
    → any_of (edges graph h) h' ≡ true
    → any_of (concat orders) h ≡ true
    → any_of (concat orders) h' ≡ true
    → ((u v : ℕ) → sym_name u ≡ sym_name v → u ≡ v)
    → get_func_name caller.name ≡ sym_name h
    → get_func_name target.name ≡ sym_name h'
    → target.is_extern ≡ false
    → (target.has_predecessor || target.extern_forward) ≡ true
    → map operand_type args ≡ target.arguments
    → (event : List Operand × Option (List Text)) × (arguments : List Argument) × (run_on_event
          iterate
          (context_bufferization sym_name refs orders)
          keep_last
          caller
          target
          args
        ≡ some event)
      × (run_on_function iterate (context_bufferization sym_name refs orders) target
          ≡ some arguments)
      × Fits event arguments target.arguments
run_on_event-edge iterate sym_name refs fuel graph h h' keep_last caller target args {sub_graphs}
      {orders} uk e edge own own' distinct name name' internal called same =
    let c = get_connected_components-Coloring fuel graph uk e in
    let (i, (order, at_i, m)) = concat-any_of orders h own in
    let (j, (order', at_j, m')) = concat-any_of orders h' own' in
    let at_h = c.ordered i order at_i h m in
    let at_h' : c.color h' ≡ suc i = c.along h h' edge ∙ at_h in
    let places : i ≡ j = (let k = c.ordered j order' at_j h' m' in omega (arith, k, at_h')) in
    let orders_same : order' ≡ order =
      some-injective (sym at_j ∙ (sym (ap (λ k. get_elem? orders k) places) ∙ at_i)) in
    let (before, (after, parts, inside)) = split-at orders i at_i in
    let free : (v : ℕ) → c.color v ≡ suc i → named_in sym_name before (sym_name v) ≡ false =
      λ v at_v. named_in-none sym_name before (sym_name v) (λ k o r.
        elim (Bool-cases (named sym_name o (sym_name v))) [
          | inr no_name ↦ no_name
          | inl has_name ↦
              let (u, (mu, q)) = named-function sym_name o (sym_name v) has_name in
              let (l, r') = inside k o r in
              let at_u = c.ordered k o r' u mu in
              let at_v' : c.color u ≡ suc i = ap c.color (distinct u v q) ∙ at_v in
              absurd (omega (arith, at_u, at_v', l))
        ]) in
    subst
      (λ os.
        (event : List Operand × Option (List Text)) × (arguments : List Argument) × (run_on_event
            iterate (context_bufferization sym_name refs os) keep_last caller target args
          ≡ some event)
        × (run_on_function iterate (context_bufferization sym_name refs os) target ≡ some arguments)
        × Fits event arguments target.arguments)
      (sym parts)
      (run_on_event-Fits iterate sym_name refs before after order h h' keep_last caller target args
        m (subst (λ o. any_of o h' ≡ true) orders_same m') (free h at_h) (free h' at_h') name name'
        internal called same)
