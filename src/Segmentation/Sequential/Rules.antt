-- ===== src/Segmentation/Sequential/Rules.antt =====
-- Triples of the run's primitive actions, for conditions on the recorded events alone.
use subgen_english_plex.Common.{List, ◌∷◌, Result, ok, raise, none}
use subgen_english_plex.Common.Action.{
  Action, lift, Holds, Outcome, Holds-bind, Holds-pure, Holds-lift, Holds-gets, Holds-modify,
}
use subgen_english_plex.Resource.Chunks.{AdaptiveChunkState, record_allocation_failure}
use subgen_english_plex.Segmentation.Sequential.{Event, Run, call, emit, adapt, adapt_failure}

module _ {W : Type 0} where
  -- A condition on the events of a run.
  abbrev pub On : (List Event → Type 0) → Run W → Type 0
  On T r = T r.trace

module _ {W : Type 0} {T R : List Event → Type 0} (leads : (es : List Event) → T es → R es) where
  module _ {A : Type 0} where
    call-Outcome :
        (r : Run W) (a : Result A) (w : W)
        → T r.trace
        → Outcome {S = Run W} (λ _. On T) (On R) (a, record r { world = w })
    call-Outcome r (ok a) w t = t
    call-Outcome r (raise e) w t = leads r.trace t

    pub Holds-call : (m : Action W A) → Holds (On T) (call m) (λ _. On T) (On R)
    unfolding call
    Holds-call m = record { at = λ r t. let (a, w) = m r.world in call-Outcome r a w t }

    pub Holds-lift-On : (r : Result A) → Holds {S = Run W} (On T) (lift r) (λ _. On T) (On R)
    Holds-lift-On r = Holds-lift r (λ a s e t. t) (λ s t. leads s.trace t)

module _ {W : Type 0} (T R : List Event → Type 0) where
  pub Holds-emit :
      (e : Event) → Holds {S = Run W} (On (λ es. T (e ∷ es))) (emit e) (λ _. On T) (On R)
  unfolding emit
  Holds-emit e = Holds-modify _ (λ s t. t)

  pub Holds-adapt :
      (f : AdaptiveChunkState → AdaptiveChunkState)
      → Holds {S = Run W} (On T) (adapt f) (λ _. On T) (On R)
  unfolding adapt
  Holds-adapt f = Holds-modify _ (λ s t. t)

  pub Holds-adapt_failure :
      ((es : List Event) → T es → R es) → Holds {S = Run W} (On T) adapt_failure (λ _. On T) (On R)
  unfolding adapt_failure
  Holds-adapt_failure leads = Holds-bind _ _ (Holds-gets _ (λ s t. t)) λ a.
      Holds-bind _ _ (Holds-lift-On leads (record_allocation_failure a none))
        λ p. Holds-bind _ _ (Holds-adapt _) λ u. Holds-pure p.1 (λ s t. t)
