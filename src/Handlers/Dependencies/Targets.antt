-- ===== src/Handlers/Dependencies/Targets.antt =====
-- The edges of the graph lead to what `lookupHandler` gives for the returns.
use alkali.Prelude.{
  ℕ, zero, suc, ◌≡◌, ◌≢◌, sym, ap, ◌∙◌, subst, true, false, List, [], ◌∷◌, some, some-injective,
  none-ne-some, some-of_chain, ◌>>=◌, Bool-cases, inl, inr, ◌⊎◌, get_elem?,
}
use alkali.Handlers.Maps.{put, any_of, at-put, at-put_other}
use alkali.Handlers.Sets.{Unique, not_any_of-cons}
use alkali.Handlers.Components.{edges}
use alkali.Handlers.Names.{HandlerOp}
use alkali.Handlers.Dependencies.{
  Dependency, add_targets, add_extern, add_full, add_handler, add_handlers, handler_dependency,
}
use alkali.Handlers.Dependencies.Lookups.{add_targets-lookups, lookups}

abbrev pub op_keys : List HandlerOp → List ℕ
op_keys [] = []
op_keys (op ∷ ops) = op.key ∷ op_keys ops

-- One round keeps the map of the handlers, and changes the edges of a full handler only.
add_handler-cases :
    (op : HandlerOp) (d : Dependency) {d' : Dependency}
    → add_handler op d ≡ some d'
    → (d'.handlers_map ≡ d.handlers_map)
      × (((op.is_extern ≡ true) × (d'.graph ≡ d.graph))
          ⊎ ((op.is_extern ≡ false)
              × ((targets : List ℕ) × (lookups d.handlers_map op.returns ≡ some targets)
                  × (d'.graph ≡ put op.key targets d.graph))))
unfolding add_handler add_extern add_full
add_handler-cases op d {d'} e = elim (Bool-cases op.is_extern) [
  | inl x ↦
      let eq : add_handler op d ≡ some (add_extern op d) = simp (x, add_handler) in
      let same = some-injective (sym eq ∙ e) in
      (sym (ap (λ q. q.handlers_map) same), inl (x, sym (ap (λ q. q.graph) same)))
  | inr x ↦
      let eq : add_handler op d ≡ add_full op d = rw (x, add_handler) in
      let (targets, e₁, e₂) =
        some-of_chain (add_targets d.handlers_map d.extern_forwards op.returns) _ (sym eq ∙ e) in
      let same = some-injective e₂ in
      (
        sym (ap (λ q. q.handlers_map) same),
        inr (
          x,
          (
            targets,
            sym (add_targets-lookups d.handlers_map d.extern_forwards op.returns) ∙ e₁,
            sym (ap (λ q. q.graph) same),
          ),
        ),
      )
]

add_handler-kept :
    (op : HandlerOp) (d : Dependency) (k : ℕ) {d' : Dependency}
    → op.key ≢ k
    → add_handler op d ≡ some d'
    → edges d'.graph k ≡ edges d.graph k
add_handler-kept op d k ne e = elim (add_handler-cases op d e).1 [
  | inl (x, same) ↦ ap (λ g. edges g k) same
  | inr (x, (targets, l, same)) ↦
      ap (λ g. edges g k) same ∙ at-put_other [] op.key k targets d.graph (λ e'. ne (sym e'))
]

-- The rounds of a loop, one by one.
add_handlers-cases :
    (op : HandlerOp) (ops : List HandlerOp) (d : Dependency) {d' : Dependency}
    → add_handlers (op ∷ ops) d ≡ some d'
    → ((op.is_handler ≡ false) × (add_handlers ops d ≡ some d'))
      ⊎ ((op.is_handler ≡ true)
          × ((d₁ : Dependency) × (add_handler op d ≡ some d₁) × (add_handlers ops d₁ ≡ some d')))
unfolding add_handlers
add_handlers-cases op ops d e = elim (Bool-cases op.is_handler) [
  | inr x ↦
      let eq : add_handlers (op ∷ ops) d ≡ add_handlers ops d = rw (x, add_handlers) in
      inl (x, sym eq ∙ e)
  | inl x ↦
      let eq : add_handlers (op ∷ ops) d ≡ (add_handler op d >>= (λ d₁. add_handlers ops d₁)) =
        simp (x, add_handlers) in
      inr (x, some-of_chain (add_handler op d) _ (sym eq ∙ e))
]

add_handlers-kept :
    (ops : List HandlerOp) (d : Dependency) (k : ℕ) {d' : Dependency}
    → any_of (op_keys ops) k ≡ false
    → add_handlers ops d ≡ some d'
    → (d'.handlers_map ≡ d.handlers_map) × (edges d'.graph k ≡ edges d.graph k)
unfolding add_handlers
add_handlers-kept [] d k h e =
    let same = some-injective e in
    (sym (ap (λ q. q.handlers_map) same), sym (ap (λ q. edges q.graph k) same))
add_handlers-kept (op ∷ ops) d k h e =
    let (ne, h') = not_any_of-cons op.key k (op_keys ops) h in
    elim (add_handlers-cases op ops d e) [
      | inl (x, e') ↦ add_handlers-kept ops d k h' e'
      | inr (x, (d₁, e₁, e₂)) ↦
          let (m, g) = add_handlers-kept ops d₁ k h' e₂ in
          (m ∙ (add_handler-cases op d e₁).0, g ∙ add_handler-kept op d k ne e₁)
    ]

handlers_map-kept :
    (ops : List HandlerOp) (d : Dependency) {d' : Dependency}
    → add_handlers ops d ≡ some d'
    → d'.handlers_map ≡ d.handlers_map
unfolding add_handlers
handlers_map-kept [] d e = sym (ap (λ q. q.handlers_map) (some-injective e))
handlers_map-kept (op ∷ ops) d e = elim (add_handlers-cases op ops d e) [
  | inl (x, e') ↦ handlers_map-kept ops d e'
  | inr (x, (d₁, e₁, e₂)) ↦ handlers_map-kept ops d₁ e₂ ∙ (add_handler-cases op d e₁).0
]

add_handlers-edges :
    (ops : List HandlerOp) (d : Dependency) (i : ℕ) {op : HandlerOp} {d' : Dependency}
    → Unique (op_keys ops)
    → get_elem? ops i ≡ some op
    → op.is_handler ≡ true
    → op.is_extern ≡ false
    → add_handlers ops d ≡ some d'
    → lookups d.handlers_map op.returns ≡ some (edges d'.graph op.key)
add_handlers-edges [] d i u at_i is_h full e = absurd (none-ne-some at_i)
add_handlers-edges (o ∷ ops) d zero {op} {d'} (fresh, u) at_i is_h full e =
    let same : o ≡ op = some-injective at_i in
    elim (add_handlers-cases o ops d e) [
      | inl (x, e') ↦ absurd (cc (x, is_h, ap (λ q. q.is_handler) same))
      | inr (x, (d₁, e₁, e₂)) ↦ elim (add_handler-cases o d e₁).1 [
        | inl (ext, g) ↦ absurd (cc (ext, full, ap (λ q. q.is_extern) same))
        | inr (ext, (targets, l, g)) ↦
            subst (λ q. lookups d.handlers_map q.returns ≡ some (edges d'.graph q.key)) same
              (l
                ∙ ap some (
                    sym (
                      (add_handlers-kept ops d₁ o.key fresh e₂).1
                      ∙ (ap (λ g'. edges g' o.key) g ∙ at-put [] o.key targets d.graph))))
      ]
    ]
add_handlers-edges (o ∷ ops) d (suc i) {op} {d'} (fresh, u) at_i is_h full e =
    elim (add_handlers-cases o ops d e) [
      | inl (x, e') ↦ add_handlers-edges ops d i u at_i is_h full e'
      | inr (x, (d₁, e₁, e₂)) ↦
          subst (λ m. lookups m op.returns ≡ some (edges d'.graph op.key))
            (add_handler-cases o d e₁).0 (add_handlers-edges ops d₁ i u at_i is_h full e₂)
    ]

-- Where no function stands twice in the module and the analysis is defined, the edges of every
-- handler that is no extern lead to what lookupHandler gives for its returns, one for each.
pub handler_dependency-edges :
    (ops : List HandlerOp) (i : ℕ) {op : HandlerOp} {d : Dependency}
    → Unique (op_keys ops)
    → handler_dependency ops ≡ some d
    → get_elem? ops i ≡ some op
    → op.is_handler ≡ true
    → op.is_extern ≡ false
    → lookups d.handlers_map op.returns ≡ some (edges d.graph op.key)
unfolding handler_dependency
handler_dependency-edges ops i {op} {d} u e at_i is_h full =
    subst (λ m. lookups m op.returns ≡ some (edges d.graph op.key))
      (sym (handlers_map-kept ops _ e)) (add_handlers-edges ops _ i u at_i is_h full e)
