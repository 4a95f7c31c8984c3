-- ===== src/Gateway/Writer.antt =====
-- internal/proxy/buffered_writer.go: the writer that holds a response back until the retry chain settles.
use onmi_routers.Base.Assoc.{lookup, insert}
use onmi_routers.Base.{
  ℕ, String, Bool, true, false, Option, none, some, List, [], ◌∷◌, ◌++◌, leb, if◌then◌else◌, length,
}

-- The calls of a response writer: the two ways to change its headers, and the two to write.
pub data WriterCall : Type 0 where
  sets_header : String → String → WriterCall
  adds_header : String → String → WriterCall
  writes_header : ℕ → WriterCall
  writes : List ℕ → WriterCall

pub record BufferedWriter : Type 0 where
  pub buf : List ℕ
  pub status : ℕ
  pub headers : List (String × List String)
  pub written : Bool

abbrev pub new_buffered_writer : BufferedWriter
new_buffered_writer = record { buf = []; status = 200; headers = []; written = false }

abbrev values : Option (List String) → List String
values none = []
values (some vs) = vs

unfoldable pub write_header : ℕ → BufferedWriter → BufferedWriter
write_header code b = if b.written then b else record b { status = code; written = true }

unfoldable pub write : List ℕ → BufferedWriter → BufferedWriter
write bytes b = record b { buf = b.buf ++ bytes; written = true }

unfoldable pub add_header : String → String → BufferedWriter → BufferedWriter
add_header k v b = record b { headers = insert k (values (lookup k b.headers) ++ v ∷ []) b.headers }

unfoldable pub call_writer : WriterCall → BufferedWriter → BufferedWriter
unfolding write_header write add_header
call_writer (sets_header k v) b = record b { headers = insert k (v ∷ []) b.headers }
call_writer (adds_header k v) b = add_header k v b
call_writer (writes_header code) b = write_header code b
call_writer (writes bytes) b = write bytes b

-- Calls in order, on a writer.
unfoldable pub captured : List WriterCall → BufferedWriter → BufferedWriter
unfolding call_writer
captured [] b = b
captured (c ∷ cs) b = captured cs (call_writer c b)

unfoldable pub flush_values : String → List String → List WriterCall
flush_values k [] = []
flush_values k (v ∷ vs) = adds_header k v ∷ flush_values k vs

unfoldable pub flush_headers : List (String × List String) → List WriterCall
unfolding flush_values
flush_headers [] = []
flush_headers ((k, vs) ∷ hs) = flush_values k vs ++ flush_headers hs

-- The calls that `flush` makes of the real writer.
unfoldable pub flush : BufferedWriter → List WriterCall
unfolding flush_headers
flush b =
    flush_headers b.headers
    ++ writes_header b.status ∷ (if leb (length b.buf) 0 then [] else writes b.buf ∷ [])
