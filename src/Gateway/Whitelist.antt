-- ===== src/Gateway/Whitelist.antt =====
-- Where the handler tests a key's list of models (internal/proxy/proxy.go).
use onmi_routers.Cache.Bound.{IsValid}
use onmi_routers.Base.{
  inr, ◌∙◌, ◌∙◌, [], contains, ◌≤◌, ◌≤◌, ℕ, ◌+◌, ◌≡◌, ◌≢◌, String, true, false, none, some, List,
  ◌++◌, arith,
}
use onmi_routers.Base.Assoc.{IsDistinct, lookup}
use onmi_routers.Cache.{get, Store, put}
use onmi_routers.Cache.Lookups.{get-put, put-enabled, get-unknown}
use onmi_routers.Gateway.Resolution.{Outside, Gateway, default_model, resolve_request}
use onmi_routers.Gateway.Handler.{
  cached, call_upstreams, miss_header, ask_cache, store_answer, Request, refuses, handle,
}

module _ (o : Outside) (req : Request) (g : Gateway) where
  -- The list of a key is only compared with the model that the request resolves to: if the key does
  -- not refuse that model, the reply and the calls of upstreams are those of a gateway without keys,
  -- so the further candidates of a combo are tried whether the key may use them or not.
  pub only_resolved_checked :
      (now later : ℕ)
      → refuses g.auth req.client_key (resolve_request o g (default_model req.body)).1.model ≡ false
      → let free = handle o now later req (record g { auth = none }) in
        ((handle o now later req g).reply ≡ free.reply)
        × ((handle o now later req g).attempts ≡ free.attempts)
  unfolding handle
  only_resolved_checked now later allowed = (ground (arith, allowed), ground (arith, allowed))

  abbrev chat_key : String
  chat_key = o.key_from_chat (default_model req.body).model (default_model req.body)

  ask-miss :
      (now : ℕ) (s : Store)
      → (default_model req.body).stream ≡ false
      → s.enabled ≡ true
      → chat_key ≢ ""
      → lookup chat_key s.items ≡ none
      → ask_cache o now (default_model req.body) (some s) ≡ record {
        store = some (record s { misses = s.misses + 1 });
        key = some chat_key;
        answer = none;
      }
  unfolding ask_cache
  ask-miss now s plain on named missing =
      ground (arith, plain, on, get-unknown now chat_key s named on missing)

  stored :
      (now later : ℕ) (s s1 : Store) (bytes : List ℕ)
      → g.semantic_cache ≡ some s
      → ask_cache o now (default_model req.body) (some s)
        ≡ record { store = some s1; key = some chat_key; answer = none }
      → refuses g.auth req.client_key (resolve_request o g (default_model req.body)).1.model ≡ false
      → o.status_of (miss_header (some chat_key) ++ (call_upstreams o req g).1) ≡ 200
      → (call_upstreams o req g).0.context.response_body ≡ some bytes
      → (handle o now later req g).gateway.semantic_cache ≡ some (put later chat_key bytes s1)
  unfolding handle store_answer
  stored now later s s1 bytes at asked allowed ok body =
      ground (arith, at, asked, allowed, ok, body)

  hit :
      (t t' : ℕ) (s : Store) (bytes : List ℕ)
      → g.semantic_cache ≡ some s
      → (default_model req.body).stream ≡ false
      → s.enabled ≡ true
      → (get t chat_key s).1 ≡ some bytes
      → (handle o t t' req g).reply ≡ cached bytes
  unfolding handle ask_cache
  hit t t' s bytes at plain on found = ground (arith, at, plain, on, found)

-- A cached answer is for everyone: once a request that is not for a stream, under a key that may use
-- its model, is answered with the status 200 and a body that is not empty, while the cache is enabled
-- and has not seen the request before, the same body sent with any other key is answered by that body
-- until it expires, whatever models this key may use: the handler looks neither at the key's list nor,
-- which is left to the middleware in front of it, at whether the key is registered.
pub cached_for_others :
    (o : Outside) (req : Request) (g : Gateway) (now later t t' : ℕ) (s : Store) (bytes : List ℕ)
    (accept client_key : String)
    → g.semantic_cache ≡ some s
    → IsValid s
    → IsDistinct s.items
    → 1 ≤ s.max_items
    → s.enabled ≡ true
    → (default_model req.body).stream ≡ false
    → chat_key o req g ≢ ""
    → lookup (chat_key o req g) s.items ≡ none
    → contains (chat_key o req g) s.order ≡ false
    → refuses g.auth req.client_key (resolve_request o g (default_model req.body)).1.model ≡ false
    → o.status_of (miss_header (some (chat_key o req g)) ++ (call_upstreams o req g).1) ≡ 200
    → (call_upstreams o req g).0.context.response_body ≡ some bytes
    → bytes ≢ []
    → t ≤ later + s.ttl
    → let other = record req { accept = accept; client_key = client_key } in
      (handle o t t' other (handle o now later req g).gateway).reply ≡ cached bytes
cached_for_others o req g now later t t' s bytes accept client_key at v d pos on plain named missing
      fresh allowed ok body full soon =
    let other = record req { accept = accept; client_key = client_key } in
    let s1 : Store = record s { misses = s.misses + 1 } in
    let v1 : IsValid s1 = record { covered = v.covered; bounded = v.bounded } in
    let asked = ask-miss o req g now s plain on named missing in
    let kept = stored o req g now later s s1 bytes at asked allowed ok body in
    hit o other (handle o now later req g).gateway t t' (put later (chat_key o req g) bytes s1)
      bytes kept plain (put-enabled later (chat_key o req g) bytes s1 ∙ on)
      (get-put later t (chat_key o req g) bytes s1 v1 d pos (inr fresh) on named full soon)
