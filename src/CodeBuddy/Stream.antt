-- ===== src/CodeBuddy/Stream.antt =====
-- The reply of CodeBuddy as it is read (internal/upstream/codebuddy.go): for a client that streams, in
-- the loop at the end of ProxyCodeBuddy, and collected for one that does not, cbCollectStream.
use onmi_routers.Combo.{contains_text}
use Prim.Native.String.{◌++◌ as text_append}
use onmi_routers.Base.{
  ℕ, String, ◌||◌, Option, none, some, List, [], ◌∷◌, ltb, str_eq, if◌then◌else◌,
}
use onmi_routers.CodeBuddy.{CbKey, add_credits, permanent_disable}
use onmi_routers.CodeBuddy.Serve.{is_exhausted}

-- A chunk: the text of its error, its contents, and the credit of its usage.
pub record Chunk : Type 0 where
  pub error : Option String
  pub content : String
  pub reasoning : String
  pub finish : String
  pub credit : Option ℕ

-- A line: no data, the end mark, or data, which is none where it is not JSON.
pub data Line : Type 0 where
  other done : Line
  data_line : Option Chunk → Line

unfoldable pub charge : Option ℕ → CbKey → CbKey
unfolding add_credits
charge none k = k
charge (some c) k = if ltb 0 c then add_credits c k else k

unfoldable pub on_error : Option String → CbKey → CbKey
unfolding is_exhausted permanent_disable
on_error none k = k
on_error (some e) k = if is_exhausted e || contains_text e "14017" then permanent_disable k else k

-- What the loop does to the key of the request for each line.
unfoldable pub stream_line : Line → CbKey → CbKey
unfolding on_error charge
stream_line other k = k
stream_line done k = k
stream_line (data_line none) k = k
stream_line (data_line (some c)) k = charge c.credit (on_error c.error k)

unfoldable pub stream : List Line → CbKey → CbKey
unfolding stream_line
stream [] k = k
stream (l ∷ ls) k = stream ls (stream_line l k)

pub record Collected : Type 0 where
  pub content : String
  pub reasoning : String
  pub finish : String
  pub credit : ℕ

abbrev pub nothing : Collected
nothing = record { content = ""; reasoning = ""; finish = ""; credit = 0 }

-- The last credit that is not zero counts.
unfoldable pub last_credit : Option ℕ → ℕ → ℕ
last_credit none before = before
last_credit (some c) before = if ltb 0 c then c else before

unfoldable pub collect_chunk : Chunk → Collected → Collected
unfolding last_credit
collect_chunk c t = record {
  content = text_append t.content c.content;
  reasoning = text_append t.reasoning c.reasoning;
  finish = if str_eq c.finish "" then t.finish else c.finish;
  credit = last_credit c.credit t.credit;
}

unfoldable pub collect : List Line → Collected → Collected
unfolding collect_chunk
collect [] t = t
collect (other ∷ ls) t = collect ls t
collect (done ∷ ls) t = t
collect (data_line none ∷ ls) t = collect ls t
collect (data_line (some c) ∷ ls) t = collect ls (collect_chunk c t)

-- The answer's text and finish reason, and the key.
unfoldable pub cb_collect_stream : List Line → CbKey → Collected × CbKey
unfolding collect add_credits
cb_collect_stream ls k =
    let t = collect ls nothing in
    (
      record t { finish = if str_eq t.finish "" then "stop" else t.finish },
      if ltb 0 t.credit then add_credits t.credit k else k,
    )
