-- ===== src/Counterfactual/Preflight/Laws.antt =====
-- A preflight describes every order of its batch and proves no execution.
use mathlib.Core.Path.{subst}
use sharpearena.Prelude.{
  ℕ, zero, String, none, some, get_elem?, sym, false, Bool-cases, inl, inr, ◌≡◌, refl, ap, true,
  Option, List, [], ◌∷◌, length, suc, arith,
}
use sharpearena.Prelude.Dict.{Dict, lookup}
use sharpearena.Python.Errors.{ok, >>=-eq-ok, ok-injective}
use sharpearena.Python.Runtime.{Runtime}
use sharpearena.Counterfactual.Ghost.{GhostOrder, Disposition, construct}
use sharpearena.Counterfactual.Ghost.Sound.{IsSound, IsSound-construct}
use sharpearena.Counterfactual.Preflight.{
  Intent, Verdict, first_verdict, rest_verdicts, fate, price_of, ghost, ghost_orders_from_preflight,
}

-- What the verdict of an order, if it has one, makes of it.
abbrev pub Fated : Option (Option Verdict) → Disposition → String → Type 0
Fated (some (some v)) d why =
    (v.allowed ≡ true → d ≡ Disposition.not_submitted)
    × (v.allowed ≡ false → (d ≡ Disposition.risk_refused) × (why ≡ v.reason))
Fated _ d why = d ≡ Disposition.not_submitted

fate-Fated :
    (vs : List (Option Verdict))
    → Fated (get_elem? vs 0) (fate (first_verdict vs)).0 (fate (first_verdict vs)).1
fate-Fated [] = refl
fate-Fated (none ∷ vs) = refl
fate-Fated (some v ∷ vs) = elim (Bool-cases v.allowed) [
  | inl e ↦ rw e ((λ _. refl), λ h. absurd cc)
  | inr e ↦ rw e ((λ h. absurd cc), λ _. (refl, refl))
]

some-injective : {A : Type 0} {x y : A} → some x ≡ some y → x ≡ y
some-injective h = cc

module _ {F : Type 0} ⦃r : Runtime F⦄ where
  -- A sound record of an order that was not sent and filled nothing, with the order's own intent, the
  -- price of its symbol, and the disposition that its verdict calls for.
  pub record IsUnsent (prices : Dict F) (v : Option (Option Verdict)) (o : Intent F)
      (g : GhostOrder F) : Type 0 where
    pub sound : IsSound g
    pub unfilled : g.executed_quantity ≡ r.zero
    pub complete : g.execution_complete ≡ true
    pub symbol : g.symbol ≡ o.symbol
    pub side : g.side ≡ o.side
    pub intended : g.intended_quantity ≡ o.quantity
    pub priced : lookup o.symbol prices ≡ some g.reference_price
    pub fated : Fated v g.disposition g.reason
    pub unidentified : (g.client_order_id ≡ none) × (g.receipt_sha256 ≡ none)

  construct-same : (g g' : GhostOrder F) → construct g ≡ ok g' → (construct g' ≡ ok g') × (g ≡ g')
  unfolding construct
  construct-same g g' h = ground arith

  ghost-IsUnsent :
      (prices : Dict F) (o : Intent F) (vs : List (Option Verdict)) (p : F) (g : GhostOrder F)
      → lookup o.symbol prices ≡ some p
      → ghost o (first_verdict vs) p ≡ ok g
      → IsUnsent prices (get_elem? vs 0) o g
  unfolding ghost
  ghost-IsUnsent prices o vs p g priced h =
      let (c, same) = construct-same _ g h in
      record {
        sound = IsSound-construct g c;
        unfilled = rw (sym same) refl;
        complete = rw (sym same) refl;
        symbol = rw (sym same) refl;
        side = rw (sym same) refl;
        intended = rw (sym same) refl;
        priced = rw (sym same) priced;
        fated = rw (sym same) (fate-Fated vs);
        unidentified = rw (sym same) (refl, refl);
      }

  price_of-lookup :
      (symbol : String) (prices : Dict F) (p : F)
      → price_of symbol prices ≡ ok p
      → lookup symbol prices ≡ some p
  unfolding price_of
  price_of-lookup symbol prices p h = ground arith

  -- Every order of the batch has a record at its own place that is unsent by its own verdict.
  abbrev pub Describes :
      Dict F → List (Option Verdict) → List (Intent F) → List (GhostOrder F) → Type 0
  Describes prices vs os gs =
      (i : ℕ) (o : Intent F)
      → get_elem? os i ≡ some o
      → (g : GhostOrder F) × (get_elem? gs i ≡ some g) × IsUnsent prices (get_elem? vs i) o g

  cons-Describes :
      (prices : Dict F) (vs : List (Option Verdict)) (o : Intent F) (os : List (Intent F))
      (g : GhostOrder F) (gs : List (GhostOrder F))
      → IsUnsent prices (get_elem? vs 0) o g
      → Describes prices (rest_verdicts vs) os gs
      → Describes prices vs (o ∷ os) (g ∷ gs)
  cons-Describes prices vs o os g gs here rest zero x e =
      (g, refl, subst (λ z. IsUnsent prices (get_elem? vs 0) z g) (some-injective e) here)
  cons-Describes prices [] o os g gs here rest (suc i) x e = rest i x e
  cons-Describes prices (v ∷ vs) o os g gs here rest (suc i) x e = rest i x e

  -- A preflight that goes through returns one record for each order of the batch, in its order: a sound
  -- one with the order's symbol, side, quantity and price that is neither sent nor filled, refused
  -- where the verdict at its place refuses it, with that reason, and not submitted elsewhere.
  pub preflight-IsUnsent :
      (os : List (Intent F)) (vs : List (Option Verdict)) (prices : Dict F)
      (gs : List (GhostOrder F))
      → ghost_orders_from_preflight os vs prices ≡ ok gs
      → (length gs ≡ length os) × Describes prices vs os gs
  unfolding ghost_orders_from_preflight
  preflight-IsUnsent [] vs prices gs h =
      subst (λ z. (length z ≡ 0) × Describes prices vs [] z) (ok-injective h)
        (refl, λ i o e. absurd cc)
  preflight-IsUnsent (o ∷ os) vs prices gs h =
      let (p, priced, h1) = >>=-eq-ok (price_of o.symbol prices) _ h in
      let (g, made, h2) = >>=-eq-ok (ghost o (first_verdict vs) p) _ h1 in
      let (rest, others, h3) =
        >>=-eq-ok (ghost_orders_from_preflight os (rest_verdicts vs) prices) _ h2 in
      let (n, described) = preflight-IsUnsent os (rest_verdicts vs) prices rest others in
      let here = ghost-IsUnsent prices o vs p g (price_of-lookup o.symbol prices p priced) made in
      subst (λ z. (length z ≡ suc (length os)) × Describes prices vs (o ∷ os) z) (ok-injective h3)
        (ap suc n, cons-Describes prices vs o os g rest here described)
