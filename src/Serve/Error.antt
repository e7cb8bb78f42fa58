-- ===== src/Serve/Error.antt =====
-- moq-transport/src/serve/error.rs
use linode_moq.Prelude.{ℕ, List}

-- An internal error holds the bytes of its text.
pub data ServeError : Type 0 where
  done : ServeError
  cancel : ServeError
  closed : ℕ → ServeError
  not_found : ServeError
  duplicate : ServeError
  mode : ServeError
  size : ServeError
  internal : List ℕ → ServeError

unfoldable pub serve_error_code : ServeError → ℕ
serve_error_code done = 0
serve_error_code cancel = 1
serve_error_code (closed code) = code
serve_error_code not_found = 404
serve_error_code duplicate = 409
serve_error_code mode = 400
serve_error_code size = 413
serve_error_code (internal _) = 500
