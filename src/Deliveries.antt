-- ===== src/Deliveries.antt =====
-- The delivery tables of skr_crypto/server/webhooks.py (`WebhookDeliveryStore`) and of alerts.py
-- (`AlertDeliveryStore`), which have the same columns but for what is delivered, the type parameter
-- here. The in-memory dict and the SQLite table are one list of rows in the order of their ids.
-- Times are natural numbers of one unit. Errors of SQLite itself are left out, but for those of the
-- write that marks a row as delivered, in `Worker`.
pub mod Worker
pub mod Rows
mod Steps
mod Posting
mod Attempts
mod Final
mod Tests
use skr_crypto.Exceptions.{Exc}
use skr_crypto.Prelude.{
  ℕ, ◌+◌, Bool, true, false, ◌&&◌, Option, none, some, List, [], ◌∷◌, take, leb, ◌==◌,
  if◌then◌else◌,
}

pub data Status : Type 0 where
  pending delivered failed giving_up : Status

abbrev pub is_pending : Status → Bool
is_pending pending = true
is_pending _ = false

-- `status in (giving_up, failed)`
abbrev pub is_stuck : Status → Bool
is_stuck giving_up = true
is_stuck failed = true
is_stuck _ = false

-- The text in `last_error`: "HTTP <code>: <body>", the body as code points, or the exception.
pub data Error : Type 0 where
  http : ℕ → List ℕ → Error
  exception : Exc → Error

-- The columns that `update_outcome` sets.
pub record Outcome : Type 0 where
  pub status : Status
  pub attempts : ℕ
  pub next_attempt_at : ℕ
  pub last_response_at : Option ℕ
  pub last_response_code : Option ℕ
  pub last_error : Option Error

pub record Delivery {ℓ} (C : Type ℓ) : Type ℓ where
  pub id : ℕ
  pub content : C
  pub outcome : Outcome
  pub created_at : ℕ

pub record Store {ℓ} (C : Type ℓ) : Type ℓ where
  pub next_id : ℕ
  pub rows : List (Delivery C)

-- `__init__`
abbrev pub empty {ℓ} : {C : Type ℓ} → Store C
empty = record { next_id = 1; rows = [] }

abbrev pub fresh : ℕ → Outcome
fresh now = record {
  status = pending;
  attempts = 0;
  next_attempt_at = now;
  last_response_at = none;
  last_response_code = none;
  last_error = none;
}

module _ {ℓ} {C : Type ℓ} where
  pub add_last : Delivery C → List (Delivery C) → List (Delivery C)
  add_last d [] = d ∷ []
  add_last d (e ∷ es) = e ∷ add_last d es

  unfoldable pub enqueue : ℕ → C → Store C → ℕ × Store C
  unfolding add_last
  enqueue now c s =
      let d : Delivery C = record {
        id = s.next_id;
        content = c;
        outcome = fresh now;
        created_at = now;
      } in
      (s.next_id, record { next_id = s.next_id + 1; rows = add_last d s.rows })

  -- `status = 'pending' AND next_attempt_at <= now`
  unfoldable pub is_due : ℕ → Delivery C → Bool
  is_due now d = is_pending d.outcome.status && leb d.outcome.next_attempt_at now

  unfoldable pub due : ℕ → List (Delivery C) → List (Delivery C)
  unfolding is_due
  due now [] = []
  due now (d ∷ ds) = let rest = due now ds in if is_due now d then d ∷ rest else rest

  -- `ORDER BY next_attempt_at`, rows of one time in the order of their ids.
  insert_next : Delivery C → List (Delivery C) → List (Delivery C)
  insert_next d [] = d ∷ []
  insert_next d (e ∷ es) =
      let rest = insert_next d es in
      if leb d.outcome.next_attempt_at e.outcome.next_attempt_at then d ∷ e ∷ es else e ∷ rest

  unfoldable pub sort_next : List (Delivery C) → List (Delivery C)
  unfolding insert_next
  sort_next [] = []
  sort_next (d ∷ ds) = insert_next d (sort_next ds)

  unfoldable pub take_due : ℕ → ℕ → Store C → List (Delivery C)
  unfolding due sort_next
  take_due limit now s = take limit (sort_next (due now s.rows))

  pub update_row : ℕ → Outcome → Delivery C → Delivery C
  update_row i o d = if d.id == i then record d { outcome = o } else d

  unfoldable pub update_rows : ℕ → Outcome → List (Delivery C) → List (Delivery C)
  unfolding update_row
  update_rows i o [] = []
  update_rows i o (d ∷ ds) = update_row i o d ∷ update_rows i o ds

  -- A missing id changes nothing.
  unfoldable pub update_outcome : ℕ → Outcome → Store C → Store C
  unfolding update_rows
  update_outcome i o s = record s { rows = update_rows i o s.rows }

  -- `ORDER BY created_at DESC`; Python's `reverse=True` keeps the order of equal times.
  insert_newest : Delivery C → List (Delivery C) → List (Delivery C)
  insert_newest d [] = d ∷ []
  insert_newest d (e ∷ es) =
      let rest = insert_newest d es in
      if leb e.created_at d.created_at then d ∷ e ∷ es else e ∷ rest

  sort_newest : List (Delivery C) → List (Delivery C)
  unfolding insert_newest
  sort_newest [] = []
  sort_newest (d ∷ ds) = insert_newest d (sort_newest ds)

  unfoldable pub list_recent : ℕ → Store C → List (Delivery C)
  unfolding sort_newest
  list_recent limit s = take limit (sort_newest s.rows)

  find : ℕ → List (Delivery C) → Option (Delivery C)
  find i [] = none
  find i (d ∷ ds) = let rest = find i ds in if d.id == i then some d else rest

  unfoldable pub get : ℕ → Store C → Option (Delivery C)
  unfolding find
  get i s = find i s.rows

  retry_found : ℕ → ℕ → Option (Delivery C) → Store C → Bool × Store C
  retry_found now i none s = (false, s)
  retry_found now i (some d) s =
      if is_stuck d.outcome.status
      then (true, update_outcome i (record d.outcome { status = pending; next_attempt_at = now }) s)
      else (false, s)

  unfoldable pub force_retry : ℕ → ℕ → Store C → Bool × Store C
  unfolding get retry_found
  force_retry now i s = retry_found now i (get i s) s

  -- `_reset_for_tests`: both the dict and the rows are emptied.
  unfoldable pub reset : Store C → Store C
  reset s = empty
