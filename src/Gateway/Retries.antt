-- ===== src/Gateway/Retries.antt =====
-- The retry chain against the list of everything that it could try (internal/proxy/proxy.go).
use onmi_routers.Base.{
  ℕ, ◌+◌, ◌≤◌, ◌<◌, ◌≡◌, ◌≢◌, ◌⊎◌, String, true, false, Option, some, List, [], ◌∷◌, ◌++◌, map,
  if◌then◌else◌,
}
use onmi_routers.Custom.{CustomRegistry}
use onmi_routers.Gateway.{
  Body, Attempt, is_cf_model, is_grok_model, grok_name, codebuddy_name, cloudflare_name,
}
use onmi_routers.Gateway.Writer.{BufferedWriter, new_buffered_writer, captured}
use onmi_routers.Gateway.Chain.{Answer, Loop, plan, is_final, resolve_with}

-- A call of an upstream, with the model that it was for and what the upstream did.
pub record Tried : Type 0 where
  pub model : String
  pub attempt : Attempt
  pub answer : Answer

abbrev pub response : Tried → BufferedWriter
response t = captured t.answer.calls new_buffered_writer

-- All candidates in order, if no answer ended the loop.
unfoldable pub tries :
    (ℕ → Attempt → Answer) → Option CustomRegistry → ℕ → List String → Body → List Tried
tries send registry n [] b = []
tries send registry n (candidate ∷ rest) b =
    let (m, a) = plan registry candidate b in
    record { model = m; attempt = a; answer = send n a } ∷ tries send registry (n + 1) rest a.sent

-- Up to the first answer that is neither a failure of the upstream nor a missing model, that one
-- included.
pub through : List Tried → List Tried
through [] = []
through (t ∷ ts) = let rest = through ts in t ∷ (if is_final (response t).status then [] else rest)

-- An answer that ends the loop, and one that does not.
abbrev pub IsFinal : Tried → Type 0
IsFinal t = ((response t).status < 500) × ((response t).status ≢ 404)

abbrev pub IsRetried : Tried → Type 0
IsRetried t = (500 ≤ (response t).status) ⊎ ((response t).status ≡ 404)

-- What was tried, of all that could be: to the first final answer, or everything.
abbrev pub IsThrough : List Tried → List Tried → Type 0
IsThrough [] all = all ≡ []
IsThrough (t ∷ ts) [] = ⊥
IsThrough (t ∷ ts) (a ∷ all) =
    (t ≡ a) × ((IsFinal t × (ts ≡ [])) ⊎ (IsRetried t × IsThrough ts all))

-- The rest of the request is sent as it came.
abbrev pub IsKept : Body → Body → Type 0
IsKept b c = (c.content ≡ b.content) × (c.stream ≡ b.stream)

-- The upstream of a model that no custom upstream claims.
abbrev pub IsByModel : String → String → Type 0
IsByModel m name =
    ((is_cf_model m ≡ true) × (name ≡ cloudflare_name))
    ⊎ ((is_cf_model m ≡ false) × (is_grok_model m ≡ true) × (name ≡ grok_name))
    ⊎ ((is_cf_model m ≡ false) × (is_grok_model m ≡ false) × (name ≡ codebuddy_name))

-- The upstream that serves a model, with the custom upstream of the candidate.
abbrev pub IsServedBy : String → String → String → Type 0
IsServedBy up m name =
    ((up ≡ grok_name) × (name ≡ grok_name))
    ⊎ ((up ≡ codebuddy_name) × (name ≡ codebuddy_name))
    ⊎ ((up ≢ grok_name) × (up ≢ codebuddy_name) × IsByModel m name)

-- The tries are for the candidates, one each and in their order, and each goes where its model belongs.
abbrev pub IsFor : Option CustomRegistry → List String → List Tried → Type 0
IsFor registry [] [] = Unit
IsFor registry [] (t ∷ ts) = ⊥
IsFor registry (candidate ∷ rest) [] = ⊥
IsFor registry (candidate ∷ rest) (t ∷ ts) =
    IsServedBy (resolve_with registry candidate).1 t.model t.attempt.upstream_name
    × IsFor registry rest ts

-- The value at the last, or the default.
pub last_by {ℓ} : {A : Type ℓ} → (Tried → A) → A → List Tried → A
last_by f a [] = a
last_by f a (t ∷ ts) = last_by f (f t) ts

abbrev pub Settles : Loop → List Tried → Loop → Type 0
Settles l ts l' =
    (l'.attempts ≡ l.attempts ++ map (λ t. t.attempt) ts)
    × (l'.last_recorder ≡ last_by (λ t. some (response t)) l.last_recorder ts)
    × (l'.model ≡ last_by (λ t. t.model) l.model ts)
    × (l'.upstream_name ≡ last_by (λ t. t.attempt.upstream_name) l.upstream_name ts)
    × (l'.body ≡ last_by (λ t. t.attempt.sent) l.body ts)

module _ (send : ℕ → Attempt → Answer) (registry : Option CustomRegistry) where
  abbrev first_try : ℕ → String → Body → Tried
  first_try n candidate b =
      let (m, a) = plan registry candidate b in record { model = m; attempt = a; answer = send n a }
