-- ===== src/Gateway/Chain.antt =====
-- internal/proxy/proxy.go: the retry chain of a combo.
use onmi_routers.Custom.{CustomRegistry, resolve_custom}
use onmi_routers.Gateway.{Body, Attempt, dispatch, expand_grok_alias}
use onmi_routers.Gateway.Writer.{WriterCall, BufferedWriter, new_buffered_writer, captured}
use onmi_routers.Base.{
  ℕ, ◌+◌, String, Bool, true, false, not, ◌&&◌, Option, none, some, List, [], ◌∷◌, ◌++◌, ltb, ◌==◌,
  str_eq, if◌then◌else◌,
}

-- What an upstream does with a request: the calls that it makes of the writer, and what it sets in the
-- context, none where it does not set it.
pub record Answer : Type 0 where
  pub calls : List WriterCall
  pub tokens_in : Option ℕ
  pub tokens_out : Option ℕ
  pub response_body : Option (List ℕ)

pub record Context : Type 0 where
  pub tokens_in : Option ℕ
  pub tokens_out : Option ℕ
  pub response_body : Option (List ℕ)

abbrev pub empty_context : Context
empty_context = record { tokens_in = none; tokens_out = none; response_body = none }

abbrev pub over {ℓ} : {A : Type ℓ} → Option A → Option A → Option A
over old none = old
over old (some new) = some new

unfoldable pub set_context : Answer → Context → Context
set_context a c = record {
  tokens_in = over c.tokens_in a.tokens_in;
  tokens_out = over c.tokens_out a.tokens_out;
  response_body = over c.response_body a.response_body;
}

-- The registry is none where it is nil.
unfoldable pub resolve_with : Option CustomRegistry → String → String × String × String
resolve_with none model = (model, "", "")
resolve_with (some r) model = resolve_custom model r

abbrev pub has_effort : Body → Bool
has_effort b = elim b.reasoning_effort [ none ↦ b.reasoning | some e ↦ true ]

-- The expansion of an alias of grok-4.5 where no custom model was found.
unfoldable pub expand_effort : String → String → Body → String × Body
expand_effort custom_upstream m b =
    if str_eq custom_upstream ""
    then elim (expand_grok_alias m) [
      | none ↦ (m, b)
      | some effort ↦ (
        "grok-4.5",
        record b {
          model = "grok-4.5";
          reasoning_effort = if has_effort b then b.reasoning_effort else some effort;
        },
      )
    ]
    else (m, b)

-- One candidate: its model, and the call of the upstream.
unfoldable pub plan : Option CustomRegistry → String → Body → String × Attempt
plan registry candidate b =
    let (m, up, mn) = resolve_with registry candidate in
    let (m', b') = expand_effort up m b in (m', dispatch up mn m' (record b' { model = m' }))

-- The variables of the loop, and the calls of upstreams so far.
pub record Loop : Type 0 where
  pub body : Body
  pub model : String
  pub upstream_name : String
  pub context : Context
  pub last_recorder : Option BufferedWriter
  pub attempts : List Attempt

unfoldable pub try_candidate : (Attempt → Answer) → Option CustomRegistry → String → Loop → Loop
try_candidate send registry candidate l =
    let (m, a) = plan registry candidate l.body in
    let answer = send a in
    record {
      body = a.sent;
      model = m;
      upstream_name = a.upstream_name;
      context = set_context answer l.context;
      last_recorder = some (captured answer.calls new_buffered_writer);
      attempts = l.attempts ++ a ∷ [];
    }

unfoldable pub is_final : ℕ → Bool
is_final status = ltb status 500 && not (status == 404)

abbrev pub is_settled : Option BufferedWriter → Bool
is_settled none = false
is_settled (some bw) = is_final bw.status

-- The loop over the candidates; `send n` is what the upstreams do in its round `n`.
unfoldable pub chain :
    (ℕ → Attempt → Answer) → Option CustomRegistry → ℕ → List String → Loop → Loop
chain send registry n [] l = l
chain send registry n (candidate ∷ rest) l =
    let l' = try_candidate (send n) registry candidate l in
    let later = chain send registry (n + 1) rest l' in
    if is_settled l'.last_recorder then l' else later
