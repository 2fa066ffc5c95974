-- ===== src/TronClient/Queries.antt =====
-- The queries of one address in skr_crypto/server/tron_client.py. The replies are those of
-- `_with_retry`, where the code goes through it.
use skr_crypto.Exceptions.{Reply, returned, raised, is_not_found}
use skr_crypto.Prelude.{ℕ, ◌-◌, Bool, true, false, if◌then◌else◌}

-- An account that was never activated has no balance; other exceptions go on.
unfoldable pub get_trx_balance_for : Reply ℕ → Reply ℕ
get_trx_balance_for (returned n) = returned n
get_trx_balance_for (raised e) = if is_not_found e then returned 0 else raised e

-- The contract's handle first, then `balanceOf`.
unfoldable pub get_usdt_balance_for : Reply (Unit {0}) → Reply ℕ → Reply ℕ
get_usdt_balance_for (raised e) raw = raised e
get_usdt_balance_for (returned u) raw = raw

-- The integer fields of `get_account_resource`, a missing one 0.
pub record Resource : Type 0 where
  pub energy_limit : ℕ
  pub energy_used : ℕ
  pub net_limit : ℕ
  pub net_used : ℕ
  pub free_net_limit : ℕ
  pub free_net_used : ℕ
  pub tron_power_limit : ℕ

pub record ResourceSummary : Type 0 where
  pub energy_available : ℕ
  pub energy_total : ℕ
  pub bandwidth_free_available : ℕ
  pub bandwidth_paid_available : ℕ
  pub tron_power : ℕ

-- `max(0, limit - used)` is the subtraction of ℕ.
unfoldable pub get_resource_summary_for : Reply Resource → ResourceSummary
get_resource_summary_for (raised e) = record {
  energy_available = 0;
  energy_total = 0;
  bandwidth_free_available = 0;
  bandwidth_paid_available = 0;
  tron_power = 0;
}
get_resource_summary_for (returned r) = record {
  energy_available = r.energy_limit - r.energy_used;
  energy_total = r.energy_limit;
  bandwidth_free_available = r.free_net_limit - r.free_net_used;
  bandwidth_paid_available = r.net_limit - r.net_used;
  tron_power = r.tron_power_limit;
}

pub record Destination : Type 0 where
  pub activated : Bool
  pub trx_balance : ℕ
  pub usdt_balance : ℕ

abbrev known : Reply ℕ → Bool
known (returned n) = true
known (raised e) = if is_not_found e then false else true

abbrev or_zero : Reply ℕ → ℕ
or_zero (returned n) = n
or_zero (raised e) = 0

-- The contract's handle may raise; the two balances are best effort.
unfoldable pub get_destination_info : Reply (Unit {0}) → Reply ℕ → Reply ℕ → Reply Destination
get_destination_info (raised e) trx usdt = raised e
get_destination_info (returned u) trx usdt =
    returned
      (record { activated = known trx; trx_balance = or_zero trx; usdt_balance = or_zero usdt })

pub check_connection : Reply ℕ → Bool
check_connection (returned n) = true
check_connection (raised e) = false
