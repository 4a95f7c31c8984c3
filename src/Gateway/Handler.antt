-- ===== src/Gateway/Handler.antt =====
-- internal/proxy/proxy.go: the handler of chat requests, from the look-up in the cache on.
use onmi_routers.Base.Assoc.{lookup}
use onmi_routers.Combo.{Combo, Registry}
use onmi_routers.Keys.{
  GatewayKeyInfo, Manager, is_model_allowed, increment_tokens, increment_requests,
}
use onmi_routers.Gateway.{Body, Attempt, dispatch}
use onmi_routers.Gateway.Writer.{WriterCall, sets_header, flush}
use onmi_routers.Gateway.Resolution.{Outside, Gateway, Resolved, default_model, resolve_request}
use onmi_routers.Gateway.Chain.{Context, empty_context, set_context, Loop, chain}
use onmi_routers.Base.{
  ℕ, ◌+◌, String, Bool, false, not, ◌&&◌, ◌||◌, Option, none, some, List, [], ◌∷◌, ◌++◌, ltb, ◌==◌,
  str_eq, if◌then◌else◌,
}

-- The body is the one that the guardrails and the compression leave; the key is empty without one.
pub record Request : Type 0 where
  pub body : Body
  pub accept : String
  pub client_key : String

pub data Reply : Type 0 where
  cached : List ℕ → Reply
  not_allowed : String → Reply
  passed : List WriterCall → Reply

pub record Served : Type 0 where
  pub gateway : Gateway
  pub reply : Reply
  pub attempts : List Attempt

-- The cache afterwards, the key, none where the cache is not asked, and its answer.
pub record Asked : Type 0 where
  pub store : Option onmi_routers.Cache.Store
  pub key : Option String
  pub answer : Option (List ℕ)

unfoldable pub ask_cache : Outside → ℕ → Body → Option onmi_routers.Cache.Store → Asked
ask_cache o now b none = record { store = none; key = none; answer = none }
ask_cache o now b (some s) =
    let key = o.key_from_chat b.model b in
    let (s', answer) = onmi_routers.Cache.get now key s in
    if not b.stream && s.enabled
    then record { store = some s'; key = some key; answer = answer }
    else record { store = some s; key = none; answer = none }

abbrev pub key_refuses : String → Option GatewayKeyInfo → Bool
key_refuses model none = false
key_refuses model (some i) = not (is_model_allowed i.allowed_models model)

unfoldable pub refuses : Option Manager → String → String → Bool
refuses none client_key model = false
refuses (some am) client_key model =
    not (str_eq client_key "") && key_refuses model (onmi_routers.Keys.get client_key am)

abbrev pub is_retried : String → Bool
is_retried s = str_eq s "fallback" || str_eq s "fill_first" || str_eq s "priority"

abbrev pub models_of : Option Combo → List String
models_of none = []
models_of (some c) = c.models

abbrev pub candidates : String → Option Registry → List String
candidates name none = []
candidates name (some r) = models_of (lookup name r.combos)

abbrev pub flushed : Loop → List WriterCall
flushed l = elim l.last_recorder [ none ↦ [] | some bw ↦ flush bw ]

abbrev pub start_loop : Resolved → Loop
start_loop r = record {
  body = r.body;
  model = r.model;
  upstream_name = "codebuddy";
  context = empty_context;
  last_recorder = none;
  attempts = [];
}

-- One call of an upstream, straight to the client.
unfoldable pub send_once : Outside → Resolved → Loop × List WriterCall
send_once o r =
    let a = dispatch r.custom_upstream r.custom_model_name r.model r.body in
    let answer = o.send 0 a in
    (
      record (start_loop r) {
        body = a.sent;
        upstream_name = a.upstream_name;
        context = set_context answer empty_context;
        attempts = a ∷ [];
      },
      answer.calls,
    )

-- The calls of the upstreams, and those of the client's writer.
unfoldable pub serve : Outside → Gateway → Bool → Resolved → Loop × List WriterCall
unfolding send_once
serve o g client_stream r =
    let models = candidates r.combo_name g.combos in
    let l = chain o.send g.custom 0 models (start_loop r) in
    if not (str_eq r.combo_name "") && is_retried r.combo_strategy && not client_stream
    then (l, flushed l)
    else send_once o r

abbrev pub or_zero : Option ℕ → ℕ
or_zero none = 0
or_zero (some n) = n

unfoldable pub count_usage : String → Context → Option Manager → Option Manager
count_usage client_key c none = none
count_usage client_key c (some am) =
    let total = or_zero c.tokens_in + or_zero c.tokens_out in
    if str_eq client_key ""
    then some am
    else if ltb 0 total
    then some (increment_tokens client_key total am).0
    else some (increment_requests client_key am).0

-- `put` stores nothing under an empty key, and no empty body.
unfoldable pub store_answer :
    ℕ
    → Option String
    → ℕ
    → Option (List ℕ)
    → Option onmi_routers.Cache.Store
    → Option onmi_routers.Cache.Store
store_answer later (some key) status (some bytes) (some s) =
    if status == 200 then some (onmi_routers.Cache.put later key bytes s) else some s
store_answer later _ status _ store = store

abbrev pub miss_header : Option String → List WriterCall
miss_header none = []
miss_header (some key) = sets_header "X-Cache" "MISS" ∷ []

-- The request as resolved with what it asked of the cache, sent to the upstreams.
unfoldable pub call_upstreams : Outside → Request → Gateway → Loop × List WriterCall
unfolding serve
call_upstreams o req g =
    let r = (resolve_request o g (default_model req.body)).1 in
    serve o g (r.body.stream || str_eq req.accept "text/event-stream") r

-- `now` is the time of the look-up and `later` that of the store.
unfoldable pub handle : Outside → ℕ → ℕ → Request → Gateway → Served
unfolding default_model ask_cache resolve_request refuses call_upstreams count_usage store_answer
handle o now later req g =
    let b = default_model req.body in
    let asked = ask_cache o now b g.semantic_cache in
    let (combos', r) = resolve_request o g b in
    let g' = record g { combos = combos'; semantic_cache = asked.store } in
    let (l, calls) = call_upstreams o req g in
    let written = miss_header asked.key ++ calls in
    elim asked.answer [
      | some bytes ↦ record {
        gateway = record g { semantic_cache = asked.store };
        reply = cached bytes;
        attempts = [];
      }
      | none ↦
          if refuses g.auth req.client_key r.model
          then record { gateway = g'; reply = not_allowed r.model; attempts = [] }
          else record {
            gateway = record g' {
              auth = count_usage req.client_key l.context g.auth;
              semantic_cache =
                  store_answer later asked.key (o.status_of written) l.context.response_body
                    asked.store;
            };
            reply = passed written;
            attempts = l.attempts;
          }
    ]
