-- ===== src/Node/Api/Commands.antt =====
-- The API of a node against a machine that only knows whether the dispatcher runs.
use gale_lb.Prelude.{ℕ, ◌≡◌, refl, ap, ◌∙◌, List, [], ◌∷◌, Option, none, some, arith}
use gale_lb.Http.{status_ok}
use gale_lb.Node.Dispatcher.{Status, running, stopped, Dispatcher}
use gale_lb.Node.Dispatcher
use gale_lb.Node.Api.{
  status_text, Response, empty_ok, Endpoint, get_status, post_start, post_stop, answer, handle,
}

abbrev pub expect : Endpoint → Status → Status × Option Response
expect get_status s =
    (s, some (record { code = status_ok; body = some (record { status = status_text s }) }))
expect post_start running = (running, some empty_ok)
expect post_start stopped = (running, none)
expect post_stop s = (stopped, some empty_ok)

-- The answers to requests that come one behind the other.
abbrev pub expect_all : List Endpoint → Status → List (Option Response)
expect_all [] s = []
expect_all (r ∷ requests) s = (expect r s).1 ∷ expect_all requests (expect r s).0

abbrev pub handle_all : List Endpoint → Dispatcher → List (Option Response)
handle_all [] d = []
handle_all (r ∷ requests) d = (handle r d).1 ∷ handle_all requests (handle r d).0

handle-expect :
    (r : Endpoint) (s : Status) (ctx : ℕ) (d : Dispatcher)
    → d.general_ctx ≡ some ctx
    → d.status ≡ s
    → ((handle r d).1 ≡ (expect r s).1)
      × ((handle r d).0.status ≡ (expect r s).0)
      × ((handle r d).0.general_ctx ≡ some ctx)
unfolding handle answer Dispatcher.start Dispatcher.stop
handle-expect get_status s ctx d c e = ground (arith, c, e)
handle-expect post_start running ctx d c e = ground (arith, c, e)
handle-expect post_start stopped ctx d c e = ground (arith, c, e)
handle-expect post_stop running ctx d c e = ground (arith, c, e)
handle-expect post_stop stopped ctx d c e = ground (arith, c, e)

-- Once a context has been made, a dispatcher to which nothing else happens answers each list of requests
-- as the machine does that only knows whether it runs: a start that is accepted waits, and all else is
-- answered with 200 at once; the status that is told is the one that the last start or stop has left, or
-- the one at the beginning.
pub handle_all-expect_all :
    (requests : List Endpoint) (ctx : ℕ) (d : Dispatcher)
    → d.general_ctx ≡ some ctx
    → handle_all requests d ≡ expect_all requests d.status
handle_all-expect_all [] ctx d c = refl
handle_all-expect_all (r ∷ requests) ctx d c =
    let (same, status, kept) = handle-expect r d.status ctx d c refl in
    (λ i. same i ∷ handle_all requests (handle r d).0)
    ∙ ap (λ rest. (expect r d.status).1 ∷ rest)
        (handle_all-expect_all requests ctx (handle r d).0 kept ∙ ap (expect_all requests) status)
