-- ===== src/Deliveries/Rows.antt =====
-- Predicates on what the rows of a table deliver.
use skr_crypto.Deliveries.{Delivery, Store, add_last, enqueue}
use skr_crypto.Prelude.{ℕ, Option, none, some, List, [], ◌∷◌, All}

module _ {C : Type 0} (P : C → Type 0) where
  abbrev pub AllContents : List (Delivery C) → Type 0
  AllContents = All (λ d. P d.content)

  abbrev pub AllRows : Option (Store C) → Type 0
  AllRows none = Unit {0}
  AllRows (some s) = AllContents s.rows

  add_last-All :
      (d : Delivery C) (ds : List (Delivery C))
      → P d.content
      → AllContents ds
      → AllContents (add_last d ds)
  unfolding add_last
  add_last-All d [] h k = (h, tt)
  add_last-All d (e ∷ es) h k = (k.0, add_last-All d es h k.1)

  pub enqueue-All :
      (now : ℕ) (c : C) (s : Store C)
      → P c
      → AllContents s.rows
      → AllContents (enqueue now c s).1.rows
  unfolding enqueue
  enqueue-All now c s h k = add_last-All _ s.rows h k

module _ {C : Type 0} {P Q : C → Type 0} (weaken : (c : C) → P c → Q c) where
  AllContents-mono : (ds : List (Delivery C)) → AllContents P ds → AllContents Q ds
  AllContents-mono [] k = tt
  AllContents-mono (d ∷ ds) k = (weaken d.content k.0, AllContents-mono ds k.1)

  pub AllRows-mono : (s : Option (Store C)) → AllRows P s → AllRows Q s
  AllRows-mono none h = tt
  AllRows-mono (some s) h = AllContents-mono s.rows h
