-- ===== src/Webhooks/Rows.antt =====
-- The rows that `enqueue_event_for_delivery` adds.
use skr_crypto.Deliveries.{Store}
use skr_crypto.Deliveries.Rows.{AllContents, AllRows, enqueue-All}
use skr_crypto.Exceptions.{Reply, returned, raised}
use skr_crypto.Webhooks.{
  Content, State, has_urls, enqueue_urls, enqueue_body, enqueue_event, enqueue_event_for_delivery,
}
use skr_crypto.Prelude.{ℕ, ◌+◌, String, Option, none, some, List, [], ◌∷◌, any, str_eq, if_either}

-- A predicate on ids that the new rows' id meets.
module _ (P : ℕ → Type 0) where
  abbrev pub OfId : Content → Type 0
  OfId c = P c.audit_event_id

  enqueue_urls-All :
      (clock : ℕ → ℕ) (i : ℕ) (event body : String) (urls : List String) (store : Store Content)
      → P i
      → AllContents OfId store.rows
      → AllContents OfId (enqueue_urls clock i event body urls store).rows
  unfolding enqueue_urls
  enqueue_urls-All clock i event body [] store h k = k
  enqueue_urls-All clock i event body (url ∷ urls) store h k =
      enqueue_urls-All (λ n. clock (n + 1)) i event body urls _ h
        (enqueue-All OfId (clock 0) _ store h k)

  enqueue_event-All :
      (clock : ℕ → ℕ) (i : ℕ) (event : String) (dumped : Reply String)
      (store : Option (Store Content)) (s : State)
      → P i
      → AllRows OfId store
      → AllRows OfId s.store
      → AllRows OfId (enqueue_event clock i event dumped store s).store
  unfolding enqueue_event enqueue_body
  enqueue_event-All clock i event dumped none s h k l = l
  enqueue_event-All clock i event (raised e) (some store) s h k l =
      if_either (λ (t : State). AllRows OfId t.store) (any (λ e. str_eq e event) s.event_filter) l l
  enqueue_event-All clock i event (returned body) (some store) s h k l =
      if_either (λ (t : State). AllRows OfId t.store) (any (λ e. str_eq e event) s.event_filter)
        (enqueue_urls-All clock i event body s.target_urls store h k) l

  pub enqueue_event_for_delivery-All :
      (clock : ℕ → ℕ) (i : ℕ) (event : String) (dumped : Reply String) (s : State)
      → P i
      → AllRows OfId s.store
      → AllRows OfId (enqueue_event_for_delivery clock i event dumped s).store
  unfolding enqueue_event_for_delivery
  enqueue_event_for_delivery-All clock i event dumped s h k =
      if_either (λ (t : State). AllRows OfId t.store) (has_urls s.target_urls)
        (enqueue_event-All clock i event dumped s.store s h k k) k
