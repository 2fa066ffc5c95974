-- ===== src/Send/Tests.antt =====
-- Payments on a concrete configuration, over the in-memory store, and over SQLite where it raises.
use skr_crypto.Exceptions.{returned}
use skr_crypto.Audit
use skr_crypto.Idempotency.{free, in_flight}
use skr_crypto.Idempotency.Sqlite
use skr_crypto.Idempotency.Sqlite.Contract.{store}
use skr_crypto.Idempotency.Memory
use skr_crypto.Wallets.Pool.{Wallet, Resolved, resolve}
use skr_crypto.Wallets.Signing.{Transfer}
use skr_crypto.Risk.Checks.{check_validity}
use skr_crypto.Risk.Assess.{at_high}
use skr_crypto.Risk.Levels.{is_valid, is_dangerous}
use skr_crypto.Sanctions
use skr_crypto.Send.Sample.{body, recipient, hot, env, request, start}
use skr_crypto.Send.Types.{
  before, Fault, Failure, ok, err, Request, SendResponse, duplicate, Env, World,
}
use skr_crypto.Send.Handler.{validate_tron_address, response, send}
use skr_crypto.Send.Fate.{Fate}
use skr_crypto.Send.Safety.{send-Fate}
use skr_crypto.Send.Retry.{retried_after_answer, lost_payment}
use skr_crypto.Send.Serve.{broadcasts, serve, serve-one_broadcast, AllAgree, serve-one_txid}
use skr_crypto.Send.Screening.{Cleared, sent_screened, sent_not_dangerous}
use skr_crypto.Prelude.Dict.{Dict}
use skr_crypto.Prelude.{arith, ◌≤◌, String, true, false, none, some, List, [], ◌∷◌, ◌≡◌, refl}

abbrev after : Env → World (Dict String)
after e = (send Memory.store e request start).1

send-Fate_example : Fate Memory.store env request start (send Memory.store env request start)
send-Fate_example = send-Fate Memory.store env request start tt

abbrev answered : SendResponse
answered = response Memory.store env request hot "ab12" false

abbrev transfer : Transfer
transfer = record {
  owner = "Thot";
  to_address = "Tgood";
  amount_raw = 1500000;
  fee_limit = 17414670;
}

first_send :
    ((send Memory.store env request start).0 ≡ ok answered) × ((after env).sent ≡ transfer ∷ [])
unfolding send skr_crypto.Send.Handler.resolve_wallet skr_crypto.Wallets.Pool.resolve
    skr_crypto.Send.Handler.validate validate_tron_address skr_crypto.Prelude.Text.starts_with
    skr_crypto.Send.Handler.risk_preflight skr_crypto.Send.Handler.reserve
    skr_crypto.Idempotency.Wait.reserve_wait Memory.reserve skr_crypto.Prelude.Dict.lookup
    skr_crypto.Send.Handler.proceed skr_crypto.Send.Handler.guarded skr_crypto.Send.Handler.attempt
    skr_crypto.Send.Handler.checked skr_crypto.Send.Handler.preflight
    skr_crypto.Send.Handler.transfer skr_crypto.Wallets.Signing.send_usdt Audit.get_audit_file
    Audit.write Audit.write_durable skr_crypto.Prelude.Dict.insert skr_crypto.Send.Handler.commit
    skr_crypto.Send.Handler.or_release skr_crypto.Send.Handler.record_event response
    skr_crypto.Wallets.Pool.unnamed skr_crypto.Wallets.Signing.make_transfer
    skr_crypto.Wallets.Signing.read_response Memory.commit Memory.release
    skr_crypto.Prelude.Dict.erase skr_crypto.TronClient.Fees.compute_fee_limit_sun
    skr_crypto.TronClient.Fees.clamp_fee skr_crypto.TronClient.Fees.scaled_fee
first_send = (refl, refl)

-- The database raises in the UPDATE of `commit`.
abbrev locked : Env
locked = record env { commit_fault = before }

abbrev empty : World Sqlite.Db
empty = record {
  store = record { is_open = true; process_id = "p1"; rows = [] };
  audit = start.audit;
  sent = [];
}

abbrev stored_by : Env → World Sqlite.Db
stored_by e = (send store e request empty).1

-- The retry of a payment whose txid was lost is a second payment.
lost_send :
    ((stored_by locked).sent ≡ transfer ∷ [])
    × ((send store env request (stored_by locked)).1.sent ≡ transfer ∷ transfer ∷ [])
unfolding send skr_crypto.Send.Handler.resolve_wallet skr_crypto.Wallets.Pool.resolve
    skr_crypto.Send.Handler.validate validate_tron_address skr_crypto.Prelude.Text.starts_with
    skr_crypto.Send.Handler.risk_preflight skr_crypto.Send.Handler.reserve
    skr_crypto.Idempotency.Wait.reserve_wait Sqlite.reserve skr_crypto.Prelude.Dict.lookup
    skr_crypto.Send.Handler.proceed skr_crypto.Send.Handler.guarded skr_crypto.Send.Handler.attempt
    skr_crypto.Send.Handler.checked skr_crypto.Send.Handler.preflight
    skr_crypto.Send.Handler.transfer skr_crypto.Wallets.Signing.send_usdt Audit.get_audit_file
    Audit.write Audit.write_durable skr_crypto.Prelude.Dict.insert skr_crypto.Send.Handler.commit
    skr_crypto.Send.Handler.or_release skr_crypto.Send.Handler.record_event response
    skr_crypto.Wallets.Pool.unnamed skr_crypto.Wallets.Signing.make_transfer
    skr_crypto.Wallets.Signing.read_response Sqlite.commit Sqlite.release
    skr_crypto.Prelude.Dict.erase skr_crypto.TronClient.Fees.compute_fee_limit_sun
    skr_crypto.TronClient.Fees.clamp_fee skr_crypto.TronClient.Fees.scaled_fee
lost_send = (refl, refl)

-- Where the txid's commit raises after the UPDATE, the retry is answered as a duplicate.
duplicate_later :
    (send store env request (stored_by (record env { commit_fault = Fault.after }))).0
    ≡ ok (response store env request hot "ab12" true)
unfolding send skr_crypto.Send.Handler.resolve_wallet skr_crypto.Wallets.Pool.resolve
    skr_crypto.Send.Handler.validate validate_tron_address skr_crypto.Prelude.Text.starts_with
    skr_crypto.Send.Handler.risk_preflight skr_crypto.Send.Handler.reserve
    skr_crypto.Idempotency.Wait.reserve_wait Sqlite.reserve skr_crypto.Prelude.Dict.lookup
    skr_crypto.Send.Handler.proceed skr_crypto.Send.Handler.guarded skr_crypto.Send.Handler.attempt
    skr_crypto.Send.Handler.checked skr_crypto.Send.Handler.preflight
    skr_crypto.Send.Handler.transfer skr_crypto.Wallets.Signing.send_usdt Audit.get_audit_file
    Audit.write Audit.write_durable skr_crypto.Prelude.Dict.insert skr_crypto.Send.Handler.commit
    skr_crypto.Send.Handler.or_release skr_crypto.Send.Handler.record_event response
    skr_crypto.Wallets.Pool.unnamed skr_crypto.Wallets.Signing.make_transfer
    skr_crypto.Wallets.Signing.read_response Sqlite.commit Sqlite.release
    skr_crypto.Prelude.Dict.erase skr_crypto.TronClient.Fees.compute_fee_limit_sun
    skr_crypto.TronClient.Fees.clamp_fee skr_crypto.TronClient.Fees.scaled_fee
duplicate_later = refl

-- Where the reservation's commit raises after the INSERT, the key stays in flight.
stuck_key :
    Sqlite.phase (stored_by (record env { reserve_fault = Fault.after })).store "order-1"
    ≡ in_flight
unfolding send skr_crypto.Send.Handler.resolve_wallet skr_crypto.Wallets.Pool.resolve
    skr_crypto.Send.Handler.validate validate_tron_address skr_crypto.Prelude.Text.starts_with
    skr_crypto.Send.Handler.risk_preflight skr_crypto.Send.Handler.reserve
    skr_crypto.Idempotency.Wait.reserve_wait Sqlite.reserve skr_crypto.Prelude.Dict.lookup
    skr_crypto.Send.Handler.proceed skr_crypto.Send.Handler.guarded skr_crypto.Send.Handler.attempt
    skr_crypto.Send.Handler.checked skr_crypto.Send.Handler.preflight
    skr_crypto.Send.Handler.transfer skr_crypto.Wallets.Signing.send_usdt Audit.get_audit_file
    Audit.write Audit.write_durable skr_crypto.Prelude.Dict.insert skr_crypto.Send.Handler.commit
    skr_crypto.Send.Handler.or_release skr_crypto.Send.Handler.record_event response
    skr_crypto.Wallets.Pool.unnamed skr_crypto.Wallets.Signing.make_transfer
    skr_crypto.Wallets.Signing.read_response Sqlite.commit Sqlite.release
    skr_crypto.Prelude.Dict.erase skr_crypto.TronClient.Fees.compute_fee_limit_sun
    skr_crypto.TronClient.Fees.clamp_fee skr_crypto.TronClient.Fees.scaled_fee Sqlite.phase
stuck_key = refl

retried_after_answer_example :
    let (r, w) = send Memory.store env request (after env) in
    (w.sent ≡ (after env).sent)
    × ((b : SendResponse) → r ≡ ok b → (b.txid ≡ answered.txid) × (b.status ≡ duplicate))
retried_after_answer_example =
    retried_after_answer Memory.store env env request request answered start tt first_send.0 refl

lost_payment_example :
    (f : Failure) × ((send store locked request empty).0 ≡ err f)
    × (Sqlite.phase (stored_by locked).store "order-1" ≡ free)
lost_payment_example =
    lost_payment store locked request empty refl refl (λ p. ground arith) (λ p. cc (p, lost_send.0))

abbrev calls : List (Env × Request)
calls = (env, request) ∷ (env, request) ∷ (env, request) ∷ []

serve-one_broadcast_example : broadcasts "order-1" (serve Memory.store calls start).0 ≤ 1
serve-one_broadcast_example = serve-one_broadcast Memory.store "order-1" calls start tt

serve-one_txid_example : (t : String) × AllAgree "order-1" t (serve Memory.store calls start).0
serve-one_txid_example = serve-one_txid Memory.store "order-1" calls start tt

sent_screened_example :
    ((x : Wallet) × (resolve none (some (λ a. returned 900)) true env.pool ≡ Resolved.wallet x))
    × (validate_tron_address "Tgood" (some body) ≡ none)
    × Cleared Memory.store env request
sent_screened_example = sent_screened Memory.store env request start (λ p. cc (p, first_send.1))

-- The level "high": the recipient is assessed, and is paid.
abbrev strict : Env
strict = record env { block_level = at_high }

strict_broadcast : (after strict).sent ≡ transfer ∷ []
unfolding send skr_crypto.Send.Handler.resolve_wallet skr_crypto.Wallets.Pool.resolve
    skr_crypto.Send.Handler.validate validate_tron_address skr_crypto.Prelude.Text.starts_with
    skr_crypto.Send.Handler.risk_preflight skr_crypto.Send.Handler.reserve
    skr_crypto.Idempotency.Wait.reserve_wait Memory.reserve skr_crypto.Prelude.Dict.lookup
    skr_crypto.Send.Handler.proceed skr_crypto.Send.Handler.guarded skr_crypto.Send.Handler.attempt
    skr_crypto.Send.Handler.checked skr_crypto.Send.Handler.preflight
    skr_crypto.Send.Handler.transfer skr_crypto.Wallets.Signing.send_usdt Audit.get_audit_file
    Audit.write Audit.write_durable skr_crypto.Prelude.Dict.insert skr_crypto.Send.Handler.commit
    skr_crypto.Send.Handler.or_release skr_crypto.Send.Handler.record_event response
    skr_crypto.Wallets.Pool.unnamed skr_crypto.Wallets.Signing.make_transfer
    skr_crypto.Wallets.Signing.read_response Memory.commit Memory.release
    skr_crypto.Prelude.Dict.erase skr_crypto.TronClient.Fees.compute_fee_limit_sun
    skr_crypto.TronClient.Fees.clamp_fee skr_crypto.TronClient.Fees.scaled_fee
    skr_crypto.Risk.Assess.should_block skr_crypto.Risk.Assess.assess_risk
    skr_crypto.Risk.Assess.level_from skr_crypto.Risk.Assess.valid_checks
    skr_crypto.Risk.Assess.external_checks skr_crypto.Risk.Checks.all_zero
    skr_crypto.Risk.Checks.check_activation skr_crypto.Risk.Checks.check_balance
    skr_crypto.Risk.Checks.check_burn_address skr_crypto.Risk.Checks.check_decoded
    skr_crypto.Risk.Checks.check_sanctions skr_crypto.Risk.Checks.check_smart_contract
    skr_crypto.Risk.Checks.check_usdt_blacklist check_validity skr_crypto.Risk.Checks.known_burn
    skr_crypto.Risk.Checks.zero_body Sanctions.contains Sanctions.member
strict_broadcast = refl

sent_not_dangerous_example :
    (is_valid "Tgood" recipient ≡ true) × (is_dangerous "Tgood" false recipient ≡ false)
sent_not_dangerous_example =
    sent_not_dangerous Memory.store strict request start refl (λ p. cc (p, strict_broadcast))
