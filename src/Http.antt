-- ===== src/Http.antt =====
-- The way of a request to `/send`: the middleware and the exception handlers of
-- skr_crypto/server/server.py, `client_address` of net.py, and the endpoint of routes.py. Of a response
-- its status is modelled. Decoding the JSON body and running the dependencies in this order is the web
-- framework's.
pub mod Client
mod Refusals
mod Guards
mod Tests
use skr_crypto.Http.Client.{Peer, client_address}
use skr_crypto.Idempotency.{Store}
use skr_crypto.Models
use skr_crypto.Models.{SendRequest, accepts, to_micro}
use skr_crypto.Prelude.Chars.{Chars}
use skr_crypto.RateLimit.{Params, check_sqlite}
use skr_crypto.RateLimit.Buckets.{Table, Key, ip}
use skr_crypto.Send.Handler.{send}
use skr_crypto.Send.Types.{
  Failure, wallet_not_found, pool_empty, auto_pick_failed, invalid_address, risk_too_high,
  insufficient_usdt, insufficient_trx, energy_too_expensive, conflict, unresolved_key, Result, ok,
  err, Request, SendResponse, Env, World,
}
use skr_crypto.Tokens.Access.{
  Access, caller, missing_key, invalid_key, revoked_key, failed, forbidden, AuthTokens, Process,
  verify_with_scope,
}
use skr_crypto.Prelude.{
  ℕ, String, Bool, true, false, ◌||◌, Option, none, some, List, str_eq, if◌then◌else◌,
}

-- The exception handlers; what has none is the framework's 500.
unfoldable pub failure_status : Failure → ℕ
failure_status (invalid_address r) = 400
failure_status insufficient_usdt = 400
failure_status insufficient_trx = 400
failure_status energy_too_expensive = 400
failure_status risk_too_high = 400
failure_status wallet_not_found = 404
failure_status pool_empty = 503
failure_status auto_pick_failed = 503
failure_status conflict = 409
failure_status unresolved_key = 409
failure_status _ = 500

unfoldable pub result_status : Result SendResponse → ℕ
unfolding failure_status
result_status (ok a) = 200
result_status (err f) = failure_status f

-- The paths that the middleware does not count.
unfoldable pub is_exempt : String → Bool
is_exempt path =
    str_eq path "/api/v1/health"
    || str_eq path "/api/v1/health/live"
    || str_eq path "/api/v1/metrics"

-- `_RateLimiter.check`, over the table of the limiter, which is missing before the start.
unfoldable pub check_ip : ℕ → Params → ℕ → String → Option Table → Bool × Option Table
check_ip one params now address none = (true, none)
check_ip one params now address (some table) =
    let key : Key = record { key_type = ip; key_value = address } in
    let (fits, table') = check_sqlite one key params now table in (fits, some table')

-- What the server keeps: the limiter's table, the token stores, and the world of the handler.
pub record State (S : Type 0) : Type 0 where
  pub table : Option Table
  pub tokens : Process
  pub world : World S

-- The configuration around the handler; `one` is a token of the limiter.
pub record Config : Type 0 where
  pub one : ℕ
  pub ip_params : Params
  pub trusted_proxies : List String
  pub auth : AuthTokens
  pub hash : Chars → List ℕ → List ℕ

-- A request: who sends it, the key of its header, and its body where it is a SendRequest by type.
pub record HttpRequest : Type 0 where
  pub path : String
  pub peer : Peer
  pub api_key : Chars
  pub body : Option SendRequest

unfoldable pub access_status : Access → ℕ
access_status (caller i) = 200
access_status missing_key = 401
access_status invalid_key = 401
access_status revoked_key = 401
access_status (forbidden required has) = 403
access_status failed = 500

-- The request as the handler reads it.
unfoldable pub as_request : SendRequest → Request
as_request r = record {
  to_address = r.to_address;
  amount = to_micro r.amount;
  idempotency_key = r.idempotency_key;
  wallet = r.wallet;
}

module _ (I : Store) (cfg : Config) (env : Env) where
  unfoldable pub run_handler : SendRequest → State I.State → ℕ × State I.State
  unfolding result_status as_request
  run_handler r s =
      let (result, w) = send I env (as_request r) s.world in
      (result_status result, record s { world = w })

  -- Past the token: a body that pydantic refuses is a 422.
  unfoldable pub with_body : Option SendRequest → State I.State → ℕ × State I.State
  with_body none s = (422, s)
  with_body (some r) s = if accepts r then run_handler r s else (422, s)

  unfoldable pub with_access : Access → HttpRequest → State I.State → ℕ × State I.State
  unfolding access_status
  with_access (caller i) q s = with_body q.body s
  with_access missing_key q s = (401, s)
  with_access invalid_key q s = (401, s)
  with_access revoked_key q s = (401, s)
  with_access (forbidden required has) q s = (403, s)
  with_access failed q s = (500, s)

  -- `require_scope("send")` and the endpoint.
  unfoldable pub endpoint : HttpRequest → State I.State → ℕ × State I.State
  endpoint q s =
      let (access, tokens) =
        verify_with_scope cfg.hash cfg.auth q.api_key "send" env.now s.tokens in
      with_access access q (record s { tokens = tokens })

  -- Past the limiter's answer.
  unfoldable pub limited : Bool × Option Table → HttpRequest → State I.State → ℕ × State I.State
  limited (true, table) q s = endpoint q (record s { table = table })
  limited (false, table) q s = (429, record s { table = table })

  -- `main_middleware` around the endpoint.
  unfoldable pub post_send : HttpRequest → State I.State → ℕ × State I.State
  unfolding is_exempt check_ip
  post_send q s =
      if is_exempt q.path
      then endpoint q s
      else limited
          (check_ip cfg.one cfg.ip_params env.now (client_address cfg.trusted_proxies q.peer)
            s.table)
          q s
