-- ===== src/Webproxy/Errors.antt =====
-- The errors that package webproxy makes (internal/webproxy). `stuck` is none of Go's: it marks a
-- loop of the model that has run out of fuel, which the theorems exclude.
use mtproto_checker.Common.{List, ℕ}

pub data Error : Type 0 where
  stuck : Error
  -- frame.go
  truncated_header truncated_payload : Error
  payload_too_large : ℕ → Error
  -- carrier.go
  conn_closed end_of_file send_failed receive_failed : Error
  session_closed : List ℕ → Error
  -- none of Go's: the model has no further body to receive
  no_more_input : Error
  -- websocket.go
  short_read rand_failed text_message : Error
  message_too_large : ℕ → Error
