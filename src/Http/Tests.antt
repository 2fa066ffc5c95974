-- ===== src/Http/Tests.antt =====
-- Requests to `/send` on a concrete configuration.
use skr_crypto.Http.{
  State, Config, HttpRequest, check_ip, as_request, run_handler, with_body, with_access, endpoint,
  limited, post_send,
}
use skr_crypto.Http.Client.{client_address}
use skr_crypto.Http.Guards.{post_send-guarded}
use skr_crypto.Http.Refusals.{post_send-refused}
use skr_crypto.Idempotency.Memory
use skr_crypto.Models.{SendRequest, fraction, accepts}
use skr_crypto.Prelude.Dict.{Dict}
use skr_crypto.Prelude.Text.{codes}
use skr_crypto.Send.Sample.{env, start}
use skr_crypto.Tokens.Access.{imported, verify_with_scope, caller}
use skr_crypto.Wallets.Signing.{Transfer}
use skr_crypto.Prelude.{String, true, none, some, [], ◌∷◌, ◌++◌, ◌≡◌, refl, arith}

abbrev config : Config
config = record {
  one = 100;
  ip_params = record { capacity = 2; refill = 10 };
  trusted_proxies = "10.0.0.1" ∷ [];
  auth = record { configured = codes "secret"; environment = codes "secret" };
  hash = λ token salt. salt ++ token;
}

abbrev payment : SendRequest
payment = record {
  to_address = "TGoodGoodGoodGoodGoodGoodGoodGood1";
  amount = fraction 150 2;
  idempotency_key = "order-1";
  wallet = none;
}

abbrev call : HttpRequest
call = record {
  path = "/api/v1/send";
  peer = record { host = some "10.0.0.1"; forwarded_for = " 1.2.3.4 , 10.0.0.1" };
  api_key = codes "secret";
  body = some payment;
}

abbrev fresh : State (Dict String)
fresh = record { table = some []; tokens = imported; world = start }

-- A proxy that is trusted names the client, another peer does not.
through_proxy : client_address ("10.0.0.1" ∷ []) call.peer ≡ "1.2.3.4"
unfolding client_address
through_proxy = refl

untrusted : client_address ("10.0.0.2" ∷ []) call.peer ≡ "10.0.0.1"
unfolding client_address
untrusted = refl

unknown_peer : client_address [] (record { host = none; forwarded_for = "1.2.3.4" }) ≡ "unknown"
unfolding client_address
unknown_peer = refl

no_key : (post_send Memory.store config env (record call { api_key = [] }) fresh).0 ≡ 401
unfolding post_send endpoint with_access limited skr_crypto.RateLimit.check_sqlite
    skr_crypto.RateLimit.check_row skr_crypto.RateLimit.Buckets.find verify_with_scope
no_key = refl

no_body : (post_send Memory.store config env (record call { body = none }) fresh).0 ≡ 422
unfolding post_send endpoint with_access limited with_body skr_crypto.RateLimit.check_sqlite
    skr_crypto.RateLimit.check_row skr_crypto.RateLimit.Buckets.find verify_with_scope codes
    skr_crypto.Prelude.Chars.compare_digest skr_crypto.Prelude.Chars.chars_eq
no_body = refl

-- 1.50 USDT from the wallet of the pool.
abbrev transfer : Transfer
transfer = record {
  owner = "Thot";
  to_address = "TGoodGoodGoodGoodGoodGoodGoodGood1";
  amount_raw = 1500000;
  fee_limit = 17414670;
}

paid :
    let (status, t) = post_send Memory.store config env call fresh in
    (status ≡ 200) × (t.world.sent ≡ transfer ∷ [])
unfolding post_send endpoint with_access limited with_body run_handler
    skr_crypto.RateLimit.check_sqlite skr_crypto.RateLimit.check_row
    skr_crypto.RateLimit.Buckets.find verify_with_scope codes
    skr_crypto.Prelude.Chars.compare_digest skr_crypto.Prelude.Chars.chars_eq accepts
    skr_crypto.Models.count_chars skr_crypto.Models.to_micro as_request check_ip
    skr_crypto.Tokens.verify skr_crypto.Models.is_positive skr_crypto.Models.six_decimals
    skr_crypto.Send.Handler.send skr_crypto.Send.Handler.resolve_wallet
    skr_crypto.Wallets.Pool.resolve skr_crypto.Send.Handler.validate
    skr_crypto.Send.Handler.validate_tron_address skr_crypto.Prelude.Text.starts_with
    skr_crypto.Send.Handler.risk_preflight skr_crypto.Send.Handler.reserve
    skr_crypto.Idempotency.Wait.reserve_wait skr_crypto.Idempotency.Memory.reserve
    skr_crypto.Prelude.Dict.lookup skr_crypto.Send.Handler.proceed skr_crypto.Send.Handler.guarded
    skr_crypto.Send.Handler.attempt skr_crypto.Send.Handler.checked
    skr_crypto.Send.Handler.preflight skr_crypto.Send.Handler.transfer
    skr_crypto.Wallets.Signing.send_usdt skr_crypto.Audit.get_audit_file skr_crypto.Audit.write
    skr_crypto.Audit.write_durable skr_crypto.Prelude.Dict.insert skr_crypto.Send.Handler.commit
    skr_crypto.Send.Handler.or_release skr_crypto.Send.Handler.record_event
    skr_crypto.Send.Handler.response skr_crypto.Wallets.Pool.unnamed
    skr_crypto.Wallets.Signing.make_transfer skr_crypto.Wallets.Signing.read_response
    skr_crypto.Idempotency.Memory.commit skr_crypto.Idempotency.Memory.release
    skr_crypto.Prelude.Dict.erase skr_crypto.TronClient.Fees.compute_fee_limit_sun
    skr_crypto.TronClient.Fees.clamp_fee skr_crypto.TronClient.Fees.scaled_fee
paid = (refl, refl)

third_call :
    (post_send Memory.store config env call
      (post_send Memory.store config env
        (record call { body = none })
        (post_send Memory.store config env (record call { body = none }) fresh).1).1).0
    ≡ 429
unfolding post_send endpoint with_access limited with_body skr_crypto.RateLimit.check_sqlite
    skr_crypto.RateLimit.check_row skr_crypto.RateLimit.Buckets.find verify_with_scope codes
    skr_crypto.Prelude.Chars.compare_digest skr_crypto.Prelude.Chars.chars_eq
    skr_crypto.RateLimit.Buckets.put client_address
third_call = refl

post_send-refused_example :
    (post_send Memory.store config env (record call { api_key = [] }) fresh).1.world.sent ≡ []
unfolding post_send
post_send-refused_example =
    post_send-refused Memory.store config env (record call { api_key = [] }) fresh
      (omega (arith, no_key)) (omega (arith, no_key))

post_send-guarded_example :
    ((check_ip 100 config.ip_params 5 (client_address config.trusted_proxies call.peer) (some [])).0
      ≡ true)
    × ((i : String) × ((verify_with_scope config.hash config.auth
            (codes "secret")
            "send"
            5
            imported).0
          ≡ caller i))
    × ((r : SendRequest) × (some payment ≡ some r) × (accepts r ≡ true))
post_send-guarded_example =
    post_send-guarded Memory.store config env call fresh refl (λ p. cc (p, paid.1))
