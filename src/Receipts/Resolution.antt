-- ===== src/Receipts/Resolution.antt =====
-- What one tick of the receipt poller does to the row of a txid and to its audit records.
use skr_crypto.Receipts.Counting.{resolved, is_receipt, receipts, listed}
use skr_crypto.Audit
use skr_crypto.Audit.{Disk, Fields, get_audit_file, write, write_durable}
use skr_crypto.Prelude.Dict.{Dict, lookup, lookup-insert}
use skr_crypto.Receipts.Classify.{is_terminal}
use skr_crypto.Receipts.Poller.{
  TxStatus, State, Settings, Candidate, Probe, is_resolved, merge, upsert, verdict, poll_record,
  receipt_fields, poll_one, poll_all,
}
use skr_crypto.Prelude.{
  ℕ, ◌+◌, ◌≤◌, String, Bool, true, false, ◌&&◌, Option, none, some, List, [], ◌∷◌, ◌≡◌, ◌∙◌, refl,
  ap, arith, str_eq, if◌then◌else◌, Bool-cases, inl, inr,
}

pub write-logged :
    (disk : Disk) (fields : Fields) (s : Audit.State)
    → (write disk fields s).1.logged ≡ Audit.next_entry fields s ∷ s.logged
unfolding write write_durable get_audit_file
write-logged disk fields s = ground arith

is_resolved-merge :
    (old : Option TxStatus) (r : TxStatus) → is_resolved (some (merge old r)) ≡ is_resolved (some r)
unfolding merge
is_resolved-merge none r = refl
is_resolved-merge (some old) r = refl

pub is_resolved-upsert :
    (txid t : String) (r : TxStatus) (table : Dict TxStatus)
    → is_resolved (lookup t (upsert txid r table))
      ≡ (if str_eq txid t then is_resolved (some r) else is_resolved (lookup t table))
unfolding upsert
is_resolved-upsert txid t r table = elim (Bool-cases (str_eq txid t)) [
  | inl g ↦
      ap is_resolved (lookup-insert txid t (merge (lookup txid table) r) table)
      ∙ rw g (is_resolved-merge (lookup txid table) r)
  | inr g ↦ ap is_resolved (lookup-insert txid t (merge (lookup txid table) r) table) ∙ rw g refl
]

pub is_resolved-poll_record :
    (cfg : Settings) (c : Candidate) (p : Probe)
    → is_resolved (some (poll_record cfg c p)) ≡ is_terminal (verdict cfg c p).status
unfolding poll_record
is_resolved-poll_record cfg c p = ground arith

-- One poll leaves the other rows and records as they are. Its own row is resolved exactly where the
-- verdict is terminal, and then one record is written.
Polled : String → Bool → Candidate → State → State → Type 0
Polled t ends c s s' =
    (resolved t s' ≡ (if str_eq c.txid t then ends else resolved t s))
    × (receipts t s'.audit.logged
        ≡ (if str_eq c.txid t && ends then 1 else 0) + receipts t s.audit.logged)

poll_one-Polled :
    (cfg : Settings) (t : String) (c : Candidate) (p : Probe) (s : State)
    → Polled t (is_terminal (verdict cfg c p).status) c s (poll_one cfg c p s)
unfolding Polled poll_one receipts receipt_fields
poll_one-Polled cfg t c p s =
    let f = receipt_fields c (verdict cfg c p).status in
    (
      is_resolved-upsert c.txid t (poll_record cfg c p) s.table
          ∙ rw (is_resolved-poll_record cfg c p) refl,
      ground (arith, write-logged p.disk f s.audit),
    )

-- Recorded only once it is resolved, and then once.
abbrev pub OnceAtMost : String → State → Type 0
OnceAtMost t s = receipts t s.audit.logged ≤ (if resolved t s then 1 else 0)

poll_one-OnceAtMost :
    (t : String) (ends : Bool) (c : Candidate) (cs : List Candidate) (s s' : State)
    → listed t (c ∷ cs) + (if resolved t s then 1 else 0) ≤ 1
    → OnceAtMost t s
    → Polled t ends c s s'
    → (listed t cs + (if resolved t s' then 1 else 0) ≤ 1) × OnceAtMost t s'
unfolding Polled listed
poll_one-OnceAtMost t ends c cs s s' h v q = ground (arith, q)

pub poll_all-OnceAtMost :
    (cfg : Settings) (t : String) (probes : ℕ → Probe) (cs : List Candidate) (s : State)
    → listed t cs + (if resolved t s then 1 else 0) ≤ 1
    → OnceAtMost t s
    → OnceAtMost t (poll_all cfg probes cs s)
unfolding poll_all listed
poll_all-OnceAtMost cfg t probes [] s h v = v
poll_all-OnceAtMost cfg t probes (c ∷ cs) s h v =
    let q : Polled t (is_terminal (verdict cfg c (probes 0)).status) c s
        (poll_one cfg c (probes 0) s) =
      poll_one-Polled cfg t c (probes 0) s in
    let rest = poll_all-OnceAtMost cfg t (λ n. probes (n + 1)) cs (poll_one cfg c (probes 0) s) in
    let p =
      poll_one-OnceAtMost t (is_terminal (verdict cfg c (probes 0)).status) c cs s
        (poll_one cfg c (probes 0) s) h v q in
    elim (probes 0).stopped
      as (λ b.
        OnceAtMost t
          (if b then s else poll_all cfg (λ n. probes (n + 1)) cs (poll_one cfg c (probes 0) s))) [
            | true ↦ v
            | false ↦ rest p.0 p.1
          ]

pub write-durable :
    (t : String) (disk : Disk) (fields : Fields) (s : Audit.State)
    → str_eq fields.txid t && is_receipt fields.event ≡ false
    → (receipts t (write disk fields s).1.logged ≡ receipts t s.logged)
      × (receipts t (write disk fields s).1.durable ≡ receipts t s.durable)
unfolding write write_durable get_audit_file receipts
write-durable t disk fields s h = ground arith

poll_one-silent :
    (cfg : Settings) (t : String) (c : Candidate) (p : Probe) (s : State)
    → str_eq c.txid t ≡ false
    → let s' = poll_one cfg c p s in
      (lookup t s'.table ≡ lookup t s.table)
      × (receipts t s'.audit.logged ≡ receipts t s.audit.logged)
      × (receipts t s'.audit.durable ≡ receipts t s.audit.durable)
unfolding poll_one upsert receipt_fields
poll_one-silent cfg t c p s h =
    let f = receipt_fields c (verdict cfg c p).status in
    let w = write-durable t p.disk f s.audit (ground arith) in
    (
      lookup-insert c.txid t (merge (lookup c.txid s.table) (poll_record cfg c p)) s.table
          ∙ rw h refl,
      ground (arith, w),
      ground (arith, w),
    )

pub poll_all-silent :
    (cfg : Settings) (t : String) (probes : ℕ → Probe) (cs : List Candidate) (s : State)
    → listed t cs ≡ 0
    → let s' = poll_all cfg probes cs s in
      (lookup t s'.table ≡ lookup t s.table)
      × (receipts t s'.audit.logged ≡ receipts t s.audit.logged)
      × (receipts t s'.audit.durable ≡ receipts t s.audit.durable)
unfolding poll_all listed
poll_all-silent cfg t probes [] s h = (refl, refl, refl)
poll_all-silent cfg t probes (c ∷ cs) s h =
    let q = poll_one-silent cfg t c (probes 0) s (ground arith) in
    let rest =
      poll_all-silent cfg t (λ n. probes (n + 1)) cs (poll_one cfg c (probes 0) s) (ground arith) in
    ground (arith, q, rest)
