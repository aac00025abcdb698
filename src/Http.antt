-- ===== src/Http.antt =====
-- What both HTTP APIs use of packages net/http and gin.
use gale_lb.Prelude.{ℕ}
use gale_lb.Prelude.Text.{Str}

-- The settings of an `http.Server`; durations are nanoseconds.
pub record HttpServer : Type 0 where
  pub addr : Str
  pub read_timeout : ℕ
  pub write_timeout : ℕ
  pub idle_timeout : ℕ
  pub max_header_bytes : ℕ

pub data Method : Type 0 where
  get post : Method

-- An error of `ListenAndServe`: http.ErrServerClosed, or another.
pub data HttpError : Type 0 where
  server_closed other : HttpError

-- http.StatusOK
abbrev pub status_ok : ℕ
status_ok = 200
