-- ===== src/Gateway/Effort.antt =====
-- The reasoning effort along the retry chain (internal/proxy/proxy.go).
use onmi_routers.Custom.{CustomRegistry}
use onmi_routers.Gateway.{Body, Attempt, dispatch, expand_grok_alias}
use onmi_routers.Gateway.Chain.{Answer, plan, resolve_with, expand_effort}
use onmi_routers.Gateway.Retries.{Tried, tries}
use onmi_routers.Base.{
  ℕ, ◌+◌, ◌≡◌, ◌∙◌, String, false, Option, none, some, List, [], ◌∷◌, arith, All,
}

dispatch-effort :
    (up mn m : String) (b : Body) → (dispatch up mn m b).sent.reasoning_effort ≡ b.reasoning_effort
unfolding dispatch
dispatch-effort up mn m b = ground arith

kept_effort :
    (up m e : String) (b : Body)
    → b.reasoning_effort ≡ some e
    → (expand_effort up m b).1.reasoning_effort ≡ some e
unfolding expand_effort
kept_effort up m e b h = ground (arith, h)

module _ (registry : Option CustomRegistry) (e : String) where
  plan-effort :
      (candidate : String) (b : Body)
      → b.reasoning_effort ≡ some e
      → (plan registry candidate b).1.sent.reasoning_effort ≡ some e
  unfolding plan
  plan-effort candidate b h =
      let (m, up, mn) = resolve_with registry candidate in
      dispatch-effort up mn _ _ ∙ kept_effort up m e b h

  new_effort :
      (m candidate : String) (b : Body)
      → resolve_with registry candidate ≡ (m, "", "")
      → expand_grok_alias m ≡ some e
      → b.reasoning_effort ≡ none
      → b.reasoning ≡ false
      → (plan registry candidate b).1.sent.reasoning_effort ≡ some e
  unfolding plan expand_effort
  new_effort m candidate b resolved aliased silent plain =
      rw resolved (dispatch-effort "" "" _ _ ∙ ground (arith, aliased, silent, plain))

  module _ (send : ℕ → Attempt → Answer) where
    HasEffort : Tried → Type 0
    HasEffort t = t.attempt.sent.reasoning_effort ≡ some e

    tries-HasEffort :
        (n : ℕ) (models : List String) (b : Body)
        → b.reasoning_effort ≡ some e
        → All HasEffort (tries send registry n models b)
    unfolding tries HasEffort
    tries-HasEffort n [] b h = tt
    tries-HasEffort n (candidate ∷ rest) b h =
        let here = plan-effort candidate b h in
        (here, tries-HasEffort (n + 1) rest (plan registry candidate b).1.sent here)

    -- An alias's effort leaks: when a candidate stands for grok-4.5 with a reasoning effort and the
    -- request asked for none, the effort goes not only to it but to the upstream of every candidate
    -- after it as well.
    pub effort_leaks :
        (n : ℕ) (m candidate : String) (rest : List String) (b : Body)
        → resolve_with registry candidate ≡ (m, "", "")
        → expand_grok_alias m ≡ some e
        → b.reasoning_effort ≡ none
        → b.reasoning ≡ false
        → All
            (λ t. t.attempt.sent.reasoning_effort ≡ some e)
            (tries send registry n (candidate ∷ rest) b)
    unfolding tries HasEffort
    effort_leaks n m candidate rest b resolved aliased silent plain =
        (here, tries-HasEffort (n + 1) rest (plan registry candidate b).1.sent here)
      where
        here : (plan registry candidate b).1.sent.reasoning_effort ≡ some e
        here = new_effort m candidate b resolved aliased silent plain
