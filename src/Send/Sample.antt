-- ===== src/Send/Sample.antt =====
-- A configuration, a request and a state for the tests of `/send`.
use skr_crypto.Audit
use skr_crypto.Exceptions.{Exc, returned, raised}
use skr_crypto.Risk.Assess.{at_none}
use skr_crypto.Risk.Types
use skr_crypto.Sanctions
use skr_crypto.Send.Types.{clear, Request, Env, World}
use skr_crypto.TronClient.Queries.{Destination}
use skr_crypto.Wallets.Pool.{Wallet}
use skr_crypto.Wallets.Signing.{answer}
use skr_crypto.Prelude.Dict.{Dict}
use skr_crypto.Prelude.{ℕ, String, true, false, none, some, List, [], ◌∷◌}

abbrev pub body : List ℕ
body =
    0x41 ∷ 1 ∷ 2 ∷ 3 ∷ 4 ∷ 5 ∷ 6 ∷ 7 ∷ 8 ∷ 9 ∷ 10 ∷ 11 ∷ 12 ∷ 13 ∷ 14 ∷ 15 ∷ 16 ∷ 17 ∷ 18 ∷ 19 ∷ 20
    ∷ []

abbrev pub down : Exc
down = record { class_name = "ConnectionError"; text = "unreachable" }

abbrev pub there : Destination
there = record { activated = true; trx_balance = 0; usdt_balance = 0 }

abbrev pub recipient : Types.World
recipient = record {
  decoded = some body;
  account = returned (record { create_time = 5; latest_opration_time = 6 });
  contract = returned false;
  is_blacklisted = returned false;
  destination = returned there;
  sanctions = record { addresses = none; loaded_from = Sanctions.url };
  tronscan = raised down;
  misttrack = none;
}

abbrev pub hot : Wallet
hot = record { name = "hot"; address = "Thot"; has_key = true }

abbrev pub env : Env
env = record {
  fees = record { fee_limit_sun = 30000000; price_fallback = 420; mult_num = 13; mult_den = 10 };
  min_trx_reserve = 10000000;
  max_energy_burn = 30000000;
  block_level = at_none;
  use_external = false;
  now = 5;
  pool = record { wallets = ("hot", hot) ∷ []; initialized = true };
  pool_balance = λ a. returned 900;
  recipient = recipient;
  disk = λ n. record { opens = true; writes = true };
  usdt_balance = returned 90000000;
  trx_balance = returned 50000000;
  destination = returned there;
  estimated_energy = some 31895;
  energy_price = 420;
  contract = returned tt;
  build = returned tt;
  network = returned (answer true "ab12");
  reserve_fault = clear;
  commit_fault = clear;
  release_fault = clear;
}

abbrev pub request : Request
request = record {
  to_address = "Tgood";
  amount = 1500000;
  idempotency_key = "order-1";
  wallet = none;
}

abbrev pub silent : Audit.State
silent = record {
  seq = 0;
  logged = [];
  durable = [];
  file_open = false;
  open_failed = false;
  configured = false;
}

abbrev pub start : World (Dict String)
start = record { store = []; audit = silent; sent = [] }
