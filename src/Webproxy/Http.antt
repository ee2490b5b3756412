-- ===== src/Webproxy/Http.antt =====
-- HTTP as internal/webproxy uses it: the requests that it makes, and what net/http and the context do,
-- in a state of type `W`. An error is what the code asks of it.
use mtproto_checker.Common.{Bool, Bytes, List, Option, Result, [], none, some, ℕ, ◌++◌, ◌∷◌}
use mtproto_checker.Common.Text.{codes}
use mtproto_checker.Mtproto.Probe.{Fault}

pub record Request : Type 0 where
  pub method : Bytes
  pub url : Bytes
  pub headers : List (Bytes × Bytes)
  pub body : Option Bytes

-- `header` is `Header.Get`, and `read` is io.ReadAll over a reader of at most so many bytes.
pub record Response : Type 0 where
  pub status_code : ℕ
  pub status : Bytes
  pub header : Bytes → Bytes
  pub read : ℕ → Result Fault Bytes

-- `takes_url` is what http.NewRequestWithContext gives for the URL, which is all that it may refuse
-- here; `sleep` is whether the timer came before the end of the context.
pub record Net (W : Type 0) : Type 0 where
  pub takes_url : Bytes → Option Fault
  pub send_request : Request → W → Result Fault Response × W
  pub sleep : ℕ → W → Bool × W
  pub ctx_err : W → Fault

abbrev pub user_agent : Bytes
user_agent =
    codes
      "Mozilla/5.0 (X11; Linux x86_64) AppleWebKit/537.36 (KHTML, like Gecko) Chrome/126.0.0.0 Safari/537.36"

abbrev content_headers : Option Bytes → List (Bytes × Bytes)
content_headers none = []
content_headers (some body) = (codes "Content-Type", codes "application/octet-stream") ∷ []

-- `newAPIRequest`, but for its error.
unfoldable pub api_request : Bytes → Bytes → Bytes → Bytes → Option Bytes → Request
api_request origin method path bearer body = record {
  method = method;
  url = origin ++ path;
  headers =
      (codes "Authorization", codes "Bearer " ++ bearer)
      ∷ (codes "Origin", origin)
      ∷ (codes "User-Agent", user_agent)
      ∷ content_headers body;
  body = body;
}

abbrev pub with_header : Bytes → Bytes → Request → Request
with_header name value r = record r { headers = r.headers ++ ((name, value) ∷ []) }
