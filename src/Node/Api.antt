-- ===== src/Node/Api.antt =====
-- pkg/nodenetwork/api/v1: the HTTP API of a node, over its dispatcher. Packages net/http and gin serve the
-- routes that are listed here, each request in a goroutine of its own.
pub mod Commands
use gale_lb.Prelude.{ℕ, ◌*◌, ◌^◌, List, [], ◌∷◌, Option, none, some}
use gale_lb.Prelude.Text.{Str, codes}
use gale_lb.Config.LoadBalancer.{second}
use gale_lb.Http.{HttpServer, Method, get, post, HttpError, server_closed, other, status_ok}
use gale_lb.Node.Dispatcher.{
  Status, running, stopped, Dispatcher, Effect, silent, start_refused, start_failed, start_returned,
  stop_refused, stop_returned, reported, loop_returned, panicked,
}
use gale_lb.Node.Dispatcher

abbrev pub server_read_timeout : ℕ
server_read_timeout = 5 * second

abbrev pub server_write_timeout : ℕ
server_write_timeout = 5 * second

abbrev pub server_idle_timeout : ℕ
server_idle_timeout = 10 * second

abbrev pub server_shutdown_timeout : ℕ
server_shutdown_timeout = 5 * second

abbrev pub max_header_size : ℕ
max_header_size = 2 ^ 20

-- string(status)
unfoldable pub status_text : Status → Str
status_text running = codes "running"
status_text stopped = codes "stopped"

pub record StatusResponse : Type 0 where
  pub status : Str

-- The status and, for `c.JSON`, the body.
pub record Response : Type 0 where
  pub code : ℕ
  pub body : Option StatusResponse

abbrev pub empty_ok : Response
empty_ok = record { code = status_ok; body = none }

pub data Endpoint : Type 0 where
  get_status post_start post_stop : Endpoint

unfoldable pub setup_router : List (Method × Str × Endpoint)
setup_router =
    (get, codes "/status", get_status)
    ∷ (post, codes "/start", post_start)
    ∷ (post, codes "/stop", post_stop)
    ∷ []

-- The handler writes its answer once the call of the dispatcher has returned, with or without an error;
-- `none` where the call goes on, or has panicked.
unfoldable pub answer : Effect → Option Response
answer start_refused = some empty_ok
answer start_failed = some empty_ok
answer start_returned = some empty_ok
answer stop_refused = some empty_ok
answer stop_returned = some empty_ok
answer silent = none
answer (reported target) = none
answer loop_returned = none
answer panicked = none

-- A request, up to the point at which its call returns or waits. `PostStart` begins a call of `Start`,
-- whose further steps are those of the dispatcher.
unfoldable pub handle : Endpoint → Dispatcher → Dispatcher × Option Response
unfolding status_text answer Dispatcher.start Dispatcher.stop
handle get_status d =
    (d, some (record { code = status_ok; body = some (record { status = status_text d.status }) }))
handle post_start d = ((Dispatcher.start d).0, answer (Dispatcher.start d).1)
handle post_stop d = ((Dispatcher.stop d).0, answer (Dispatcher.stop d).1)

pub record NodeNetworkApi : Type 0 where
  pub server : HttpServer
  pub routes : List (Method × Str × Endpoint)

unfoldable pub new : NodeNetworkApi
unfolding setup_router
new = record {
  server = record {
    addr = codes ":5555";
    read_timeout = server_read_timeout;
    write_timeout = server_write_timeout;
    idle_timeout = server_idle_timeout;
    max_header_bytes = max_header_size;
  };
  routes = setup_router;
}

-- What `Start` makes of the result of `ListenAndServe`.
unfoldable pub start : Option HttpError → Option HttpError
start (some server_closed) = none
start (some other) = some other
start none = none

-- `Shutdown` of package net/http is a parameter: what it returns when its context leaves it so long.
unfoldable pub stop : (ℕ → Option HttpError) → Option HttpError
stop shutdown = shutdown server_shutdown_timeout
