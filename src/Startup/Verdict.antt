-- ===== src/Startup/Verdict.antt =====
-- When the check at the start reports that all is well.
use skr_crypto.Exceptions.{Reply}
use skr_crypto.Startup.{
  Record, Info, is_relevant, has_txid, add_last, collect, successes, sent_to, has_duplicates,
  confirmed, verify_txid_on_chain, Summary, summarise, run_startup_check,
}
use skr_crypto.Prelude.{
  ℕ, ◌≤◌, String, true, false, some, List, [], ◌∷◌, ◌≡◌, ◌⊎◌, inl, inr, refl, arith, length, str_eq,
  eq_iff, eq_refl, if◌then◌else◌,
}

abbrev pub Among : Record → List Record → Type 0
Among r [] = ⊥
Among r (s ∷ ss) = (r ≡ s) ⊎ Among r ss

has_txid-add_last :
    (t : String) (r : Record) (rs : List Record)
    → has_txid t (add_last r rs) ≡ (if has_txid t rs then true else str_eq r.txid t)
unfolding add_last
has_txid-add_last t r [] = ground arith
has_txid-add_last t r (s ∷ ss) = ground (arith, has_txid-add_last t r ss)

-- What was found stays found.
has_txid-collect_kept :
    (start : ℕ) (t : String) (rs found : List Record)
    → has_txid t found ≡ true
    → has_txid t (collect start rs found) ≡ true
unfolding collect
has_txid-collect_kept start t [] found h = h
has_txid-collect_kept start t (r ∷ rs) found h = ground (
  arith,
  has_txid-add_last t r found,
  has_txid-collect_kept start t rs found,
  has_txid-collect_kept start t rs (add_last r found),
)

has_txid-collect :
    (start : ℕ) (r : Record) (rs found : List Record)
    → Among r rs
    → is_relevant start r ≡ true
    → has_txid r.txid (collect start rs found) ≡ true
unfolding collect
has_txid-collect start r [] found a h = absurd a
has_txid-collect start r (s ∷ rs) found (inl e) h = ground (
  arith,
  e,
  has_txid-add_last r.txid s found,
  eq_refl s.txid,
  has_txid-collect_kept start r.txid rs found,
  has_txid-collect_kept start r.txid rs (add_last s found),
)
has_txid-collect start r (s ∷ rs) found (inr a) h =
    ground
      (arith, has_txid-collect start r rs found, has_txid-collect start r rs (add_last s found))

confirmed_le : (node : String → Reply Info) (rs : List Record) → confirmed node rs ≤ length rs
unfolding confirmed
confirmed_le node [] = omega arith
confirmed_le node (r ∷ rs) = ground (arith, confirmed_le node rs)

-- Where all are confirmed, each is.
confirmed_all :
    (node : String → Reply Info) (t : String) (rs : List Record)
    → confirmed node rs ≡ length rs
    → has_txid t rs ≡ true
    → verify_txid_on_chain (node t) ≡ "SUCCESS"
unfolding confirmed
confirmed_all node t [] h k = ground arith
confirmed_all node t (r ∷ rs) h k = ground (
  arith,
  confirmed_le node rs,
  confirmed_all node t rs,
  eq_iff r.txid t,
  eq_iff (verify_txid_on_chain (node r.txid)) "SUCCESS",
)

-- Without duplicates no address was sent to twice.
sent_to_once :
    (a : String) (all rs : List Record)
    → has_duplicates all rs ≡ false
    → str_eq a "" ≡ false
    → (sent_to a rs ≡ 0) ⊎ (sent_to a all ≤ 1)
unfolding has_duplicates sent_to
sent_to_once a all [] h k = inl refl
sent_to_once a all (r ∷ rs) h k = ground (arith, sent_to_once a all rs, eq_iff r.to_address a)

summarise-ok :
    (node : String → Reply Info) (found : List Record) (s : Summary)
    → summarise node found ≡ some s
    → s.is_ok ≡ true
    → (has_duplicates found found ≡ false) × (confirmed node found ≡ length found)
unfolding summarise
summarise-ok node [] s h k = ground arith
summarise-ok node (r ∷ rs) s h k = ground arith

-- If the check at the start reports "ok", then the chain confirms the txid of every SEND_SUCCESS
-- record since midnight, and among those txids no address was sent to twice.
pub run_startup_check-ok :
    (start : ℕ) (node : String → Reply Info) (rs : List Record) (s : Summary) (r : Record)
    (address : String)
    → run_startup_check start node rs ≡ some s
    → s.is_ok ≡ true
    → Among r rs
    → is_relevant start r ≡ true
    → str_eq address "" ≡ false
    → (verify_txid_on_chain (node r.txid) ≡ "SUCCESS") × (sent_to address (successes start rs) ≤ 1)
unfolding run_startup_check successes
run_startup_check-ok start node rs s r address h k a b n =
    let found = successes start rs in
    let facts = summarise-ok node found s h k in
    (
      confirmed_all node r.txid found facts.1 (has_txid-collect start r rs [] a b),
      ground (arith, sent_to_once address found found facts.0 n),
    )
