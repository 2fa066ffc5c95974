-- ===== src/Webhooks.antt =====
-- skr_crypto/server/webhooks.py: the module's state, its start and stop, and the rows that an audit
-- record adds. The delivery table and the worker are those of Deliveries. The worker's thread and the
-- urls' other settings are left out.
pub mod Signature
pub mod Rows
mod Tests
use skr_crypto.Deliveries.{Store, enqueue}
use skr_crypto.Deliveries.Worker
use skr_crypto.Exceptions.{Reply, returned, raised}
use skr_crypto.Prelude.{
  ℕ, ◌+◌, String, Bool, true, false, Option, none, some, List, [], ◌∷◌, any, str_eq, if◌then◌else◌,
}

-- The counter of the audit record's id, and the other columns of a row.
pub record Content : Type 0 where
  pub audit_event_id : ℕ
  pub event : String
  pub url : String
  pub payload : String

-- `store`, `_worker` by its settings, `_event_filter` and `_target_urls`.
pub record State : Type 0 where
  pub store : Option (Store Content)
  pub worker : Option Worker.Settings
  pub event_filter : List String
  pub target_urls : List String

-- The arguments of `init_webhooks`, with the rows that the database holds.
pub record Config : Type 0 where
  pub database : Store Content
  pub urls : List String
  pub signing_secret : String
  pub event_filter : List String
  pub backoff_schedule : List ℕ

unfoldable pub shutdown_webhooks : State → State
shutdown_webhooks s = record s { store = none; worker = none }

abbrev pub has_urls : List String → Bool
has_urls [] = false
has_urls (u ∷ us) = true

-- Without urls or without a secret webhooks stay off.
unfoldable pub init_webhooks : Config → State → State
unfolding shutdown_webhooks
init_webhooks cfg s =
    if has_urls cfg.urls
    then (if str_eq cfg.signing_secret "" then shutdown_webhooks s else record {
      store = some cfg.database;
      worker = some (record { backoff = cfg.backoff_schedule; body_limit = 200 });
      event_filter = cfg.event_filter;
      target_urls = cfg.urls;
    })
    else shutdown_webhooks s

-- The loop over `_target_urls`; the n-th row meets the n-th time.
unfoldable pub enqueue_urls :
    (ℕ → ℕ) → ℕ → String → String → List String → Store Content → Store Content
enqueue_urls clock i event body [] store = store
enqueue_urls clock i event body (url ∷ urls) store =
    let c : Content = record { audit_event_id = i; event = event; url = url; payload = body } in
    enqueue_urls (λ n. clock (n + 1)) i event body urls (enqueue (clock 0) c store).1

enqueue_body : (ℕ → ℕ) → ℕ → String → Reply String → Store Content → State → State
enqueue_body clock i event (raised e) store s = s
enqueue_body clock i event (returned body) store s = record s {
  store = some (enqueue_urls clock i event body s.target_urls store);
}

enqueue_event : (ℕ → ℕ) → ℕ → String → Reply String → Option (Store Content) → State → State
unfolding enqueue_body
enqueue_event clock i event dumped none s = s
enqueue_event clock i event dumped (some store) s =
    if any (λ e. str_eq e event) s.event_filter
    then enqueue_body clock i event dumped store s
    else s

-- `enqueue_event_for_delivery`; the reply is that of `json.dumps`.
unfoldable pub enqueue_event_for_delivery : (ℕ → ℕ) → ℕ → String → Reply String → State → State
unfolding enqueue_event
enqueue_event_for_delivery clock i event dumped s =
    if has_urls s.target_urls then enqueue_event clock i event dumped s.store s else s
