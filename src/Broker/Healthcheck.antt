-- ===== src/Broker/Healthcheck.antt =====
-- broker/healthcheck/checker.go. The HTTP client is a parameter: `new_request` is none where the
-- URL is refused, and `do` gives the status of the response, or none.
use hackathon.Common.{ℕ, Option, none, some, ◌||◌, ltb, ◌==◌, if◌then◌else◌, ◌++◌}
use hackathon.Text.{Text, codes}
use hackathon.Text.Decimal.{decimal}
use hackathon.Broker.Config.{max_port}

pub record HttpClient : Type 1 where
  pub World : Type 0
  pub Req : Type 0
  pub new_request : Text → Option Req
  pub do_request : Req → World → Option ℕ × World

pub data CheckError : Type 0 where
  request_refused request_failed : CheckError
  unexpected_status : ℕ → CheckError

-- NewHTTPChecker panics on a nil client (`client` none) and on a port out of range.
unfoldable pub new_http_checker : {C : Type 0} → Option C → ℕ → Option (C × ℕ)
new_http_checker none port = none
new_http_checker (some client) port =
    if (port == 0) || ltb max_port port then none else some (client, port)

unfoldable pub health_url : Text → ℕ → Text
health_url private_host port =
    codes "http://" ++ (private_host ++ (codes ":" ++ (decimal port ++ codes "/health")))

abbrev pub answered : {W : Type 0} → Option ℕ × W → Option CheckError × W
answered (none, w) = (some request_failed, w)
answered (some status, w) = ((if status == 200 then none else some (unexpected_status status)), w)

module _ (client : HttpClient) (port : ℕ) where
  open client use {World, Req, new_request, do_request}

  abbrev pub with_request : Option Req → World → Option CheckError × World
  with_request none w = (some request_refused, w)
  with_request (some req) w = answered (do_request req w)

  -- Check; `none` is a healthy runner.
  unfoldable pub check : Text → World → Option CheckError × World
  check private_host w = with_request (new_request (health_url private_host port)) w
