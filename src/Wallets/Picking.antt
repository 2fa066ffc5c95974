-- ===== src/Wallets/Picking.antt =====
-- Which wallet `WalletPool.resolve` and the auto-pick of skr_crypto/server/wallet_pool.py answer.
use skr_crypto.Exceptions.{Reply, returned, raised}
use mathlib.Core.Path.{subst}
use skr_crypto.Prelude.Dict.{Dict, lookup}
use skr_crypto.Wallets.Pool.{
  Wallet, Pool, Best, wallet, refused, auto_pick_failed, insert_sorted, sort_by_name, all, get,
  consider, pick, nothing_yet, auto_pick_max_usdt, resolve, unnamed, given,
}
use skr_crypto.Prelude.{
  ℕ, ◌+◌, ◌≤◌, ◌<◌, String, Bool, true, false, Option, none, some, List, [], ◌∷◌, map, ◌≡◌, ◌↔◌,
  ◌⊎◌, inl, inr, refl, arith, Option-cases,
}

abbrev values : Dict Wallet → List Wallet
values d = map (λ (e : String × Wallet). e.1) d

abbrev pub Among : Wallet → Dict Wallet → Type 0
Among w [] = ⊥
Among w ((n, v) ∷ d) = (w ≡ v) ⊎ Among w d

Among-insert_sorted :
    (w : Wallet) (e : String × Wallet) (d : Dict Wallet)
    → Among w (insert_sorted e d)
    → (w ≡ e.1) ⊎ Among w d
unfolding insert_sorted
Among-insert_sorted w e [] h = h
Among-insert_sorted w e (f ∷ d) h = ground (arith, Among-insert_sorted w e d)

Among-sort : (w : Wallet) (d : Dict Wallet) → Among w (sort_by_name d) → Among w d
unfolding sort_by_name
Among-sort w [] h = h
Among-sort w (e ∷ d) h = ground (arith, Among-insert_sorted w e (sort_by_name d) h, Among-sort w d)

Among-lookup : (n : String) (w : Wallet) (d : Dict Wallet) → lookup n d ≡ some w → Among w d
unfolding lookup
Among-lookup n w [] h = cc
Among-lookup n w ((m, v) ∷ d) h = ground (arith, Among-lookup n w d)

module _ (balance : String → Reply ℕ) where
  -- A balance plus one, and zero where the lookup raises.
  abbrev offer_of : Reply ℕ → ℕ
  offer_of (returned n) = n + 1
  offer_of (raised e) = 0

  abbrev offer : Wallet → ℕ
  offer v = offer_of (balance v.address)

  -- No wallet offers more than `k`.
  abbrev pub NoneOver : ℕ → Dict Wallet → Type 0
  NoneOver k [] = Unit {0}
  NoneOver k ((n, v) ∷ d) = (offer v ≤ k) × NoneOver k d

  NoneOver-mono : (k l : ℕ) (d : Dict Wallet) → k ≤ l → NoneOver k d → NoneOver l d
  NoneOver-mono k l [] h o = tt
  NoneOver-mono k l ((n, v) ∷ d) h o = (omega arith, NoneOver-mono k l d h o.1)

  NoneOver-insert_sorted :
      (k : ℕ) (e : String × Wallet) (d : Dict Wallet)
      → NoneOver k (insert_sorted e d)
      → (offer e.1 ≤ k) × NoneOver k d
  unfolding insert_sorted
  NoneOver-insert_sorted k e [] h = h
  NoneOver-insert_sorted k e (f ∷ d) h = ground (arith, NoneOver-insert_sorted k e d)

  NoneOver-sort : (k : ℕ) (d : Dict Wallet) → NoneOver k (sort_by_name d) → NoneOver k d
  unfolding sort_by_name
  NoneOver-sort k [] h = h
  NoneOver-sort k (e ∷ d) h =
      ground (arith, NoneOver-insert_sorted k e (sort_by_name d) h, NoneOver-sort k d)

  NoneOver-lookup :
      (k : ℕ) (n : String) (v : Wallet) (d : Dict Wallet)
      → NoneOver k d
      → lookup n d ≡ some v
      → offer v ≤ k
  unfolding lookup
  NoneOver-lookup k n v [] h e = cc
  NoneOver-lookup k n v ((m, w) ∷ d) h e = ground (arith, NoneOver-lookup k n v d h.1)

  -- The best so far is an offer of a wallet that was seen, or no lookup has returned.
  abbrev Backed : Best → Type 0
  Backed b = elim b.best [
    | none ↦ (b.bound ≡ 0) × (b.any_ok ≡ false)
    | some w ↦ (offer w ≡ b.bound) × (b.any_ok ≡ true) × (0 < b.bound)
  ]

  consider-Backed : (v : Wallet) (b : Best) → Backed b → Backed (consider v (balance v.address) b)
  unfolding consider
  consider-Backed v b h = ground arith

  pick-Backed : (vs : List Wallet) (b : Best) → Backed b → Backed (pick balance vs b)
  unfolding pick
  pick-Backed [] b h = h
  pick-Backed (v ∷ vs) b h = pick-Backed vs _ (consider-Backed v b h)

  consider_bound :
      (v : Wallet) (b : Best)
      → (b.bound ≤ (consider v (balance v.address) b).bound)
        × (offer v ≤ (consider v (balance v.address) b).bound)
  unfolding consider
  consider_bound v b = ground arith

  pick_bound :
      (d : Dict Wallet) (b : Best)
      → (b.bound ≤ (pick balance (values d) b).bound) × NoneOver (pick balance (values d) b).bound d
  unfolding pick
  pick_bound [] b = (omega arith, tt)
  pick_bound ((n, v) ∷ d) b =
      let r = pick_bound d (consider v (balance v.address) b) in
      (omega (arith, consider_bound v b, r.0), (omega (arith, consider_bound v b, r.0), r.1))

  pick-Among :
      (d : Dict Wallet) (b : Best) (w : Wallet)
      → (pick balance (values d) b).best ≡ some w
      → (b.best ≡ some w) ⊎ Among w d
  unfolding pick consider
  pick-Among [] b w h = inl h
  pick-Among ((n, v) ∷ d) b w h =
      ground (arith, pick-Among d (consider v (balance v.address) b) w h)

  -- The state after the loop over the sorted wallets.
  final : Pool → Best
  final pool = pick balance (values (sort_by_name pool.wallets)) nothing_yet

  final-Backed : (pool : Pool) → Backed (final pool)
  unfolding final
  final-Backed pool = pick-Backed (values (sort_by_name pool.wallets)) nothing_yet (refl, refl)

  final-NoneOver : (pool : Pool) → NoneOver (final pool).bound pool.wallets
  unfolding final
  final-NoneOver pool =
      NoneOver-sort _ pool.wallets (pick_bound (sort_by_name pool.wallets) nothing_yet).1

  final-best :
      (pool : Pool) (w : Wallet)
      → auto_pick_max_usdt balance pool ≡ wallet w
      → (final pool).best ≡ some w
  unfolding auto_pick_max_usdt all final
  final-best pool w h = ground arith

  final-Among : (pool : Pool) (w : Wallet) → (final pool).best ≡ some w → Among w pool.wallets
  unfolding final
  final-Among pool w h =
      Among-sort w pool.wallets
        (elim (pick-Among (sort_by_name pool.wallets) nothing_yet w h) [ inl e ↦ cc | inr a ↦ a ])

  offer_lem :
      (r : Reply ℕ) (k : ℕ) → 0 < k → offer_of r ≡ k → (n : ℕ) × (r ≡ returned n) × (n + 1 ≡ k)
  offer_lem (returned n) k p h = (n, refl, h)
  offer_lem (raised e) k p h = absurd (omega arith)

  -- The wallet that auto-pick answers is one of the pool, its balance lookup returned, and no wallet
  -- of the pool whose lookup returned has more.
  pub auto_pick-max :
      (pool : Pool) (w : Wallet)
      → auto_pick_max_usdt balance pool ≡ wallet w
      → Among w pool.wallets
        × ((n : ℕ) × (balance w.address ≡ returned n)
            × ((name : String) (v : Wallet) (m : ℕ)
                → lookup name pool.wallets ≡ some v
                → balance v.address ≡ returned m
                → m ≤ n))
  auto_pick-max pool w h =
      let best : (final pool).best ≡ some w = final-best pool w h in
      let (n, e, k) =
        offer_lem (balance w.address) (final pool).bound (ground (arith, final-Backed pool))
          (ground (arith, final-Backed pool)) in
      (
        final-Among pool w best,
        (
          n,
          e,
          λ name v m f g. ground (
            arith,
            NoneOver-lookup (final pool).bound name v pool.wallets (final-NoneOver pool) f,
          ),
        ),
      )

  picks_nothing :
      (pool : Pool)
      → (auto_pick_max_usdt balance pool ≡ refused auto_pick_failed) ↔ ((final pool).bound ≡ 0)
  unfolding auto_pick_max_usdt all final
  picks_nothing pool =
      ((λ h. ground (arith, final-Backed pool)), (λ h. ground (arith, final-Backed pool)))

  NoneOver-Among : (k : ℕ) (w : Wallet) (d : Dict Wallet) → NoneOver k d → Among w d → offer w ≤ k
  NoneOver-Among k w [] h a = elim a [ ]
  NoneOver-Among k w ((n, v) ∷ d) h a = ground (arith, NoneOver-Among k w d h.1)

  bound_zero : (pool : Pool) → NoneOver 0 pool.wallets → (final pool).bound ≡ 0
  bound_zero pool h = elim (Option-cases (final pool).best) [
    | inl e ↦ ground (arith, final-Backed pool)
    | inr (w, e) ↦
        ground (arith, final-Backed pool, NoneOver-Among 0 w pool.wallets h (final-Among pool w e))
  ]

  -- Auto-pick fails exactly when every balance lookup raises.
  auto_pick-fails :
      (pool : Pool)
      → (auto_pick_max_usdt balance pool ≡ refused auto_pick_failed) ↔ NoneOver 0 pool.wallets
  auto_pick-fails pool = (
    (λ h.
        let e : (final pool).bound ≡ 0 = (picks_nothing pool).0 h in
        let r : NoneOver (final pool).bound pool.wallets = final-NoneOver pool in
        subst (λ k. NoneOver k pool.wallets) e r),
    (λ h. (picks_nothing pool).1 (bound_zero pool h)),
  )

get-Among : (n : String) (pool : Pool) (w : Wallet) → get n pool ≡ wallet w → Among w pool.wallets
unfolding get
get-Among n pool w h = ground (arith, Among-lookup n w pool.wallets)

unnamed-Among :
    (client : Option (String → Reply ℕ)) (max_usdt : Bool) (pool : Pool) (d : Dict Wallet)
    (w : Wallet)
    → pool.wallets ≡ d
    → unnamed client max_usdt pool d ≡ wallet w
    → Among w pool.wallets
unfolding unnamed
unnamed-Among client max_usdt pool [] w e h = cc
unnamed-Among client max_usdt pool ((n, v) ∷ []) w e h = rw e (inl (cc))
unnamed-Among none max_usdt pool (x ∷ y ∷ d) w e h = ground arith
unnamed-Among (some balance) false pool (x ∷ y ∷ d) w e h = cc
unnamed-Among (some balance) true pool (x ∷ y ∷ d) w e h = (auto_pick-max balance pool w h).0

get-given :
    (name : Option String) (client : Option (String → Reply ℕ)) (max_usdt : Bool) (pool : Pool)
    (w : Wallet)
    → elim (given name) [ some n ↦ get n pool | none ↦ unnamed client max_usdt pool pool.wallets ]
      ≡ wallet w
    → Among w pool.wallets
get-given name client max_usdt pool w h = elim (Option-cases (given name)) [
  | inl e ↦ unnamed-Among client max_usdt pool pool.wallets w refl (rw e at h)
  | inr (n, e) ↦ get-Among n pool w (rw e at h)
]

-- Whatever is asked for, the answer is a wallet of the pool, or an error.
resolve-Among :
    (name : Option String) (client : Option (String → Reply ℕ)) (max_usdt : Bool) (pool : Pool)
    (w : Wallet)
    → resolve name client max_usdt pool ≡ wallet w
    → Among w pool.wallets
unfolding resolve
resolve-Among name client max_usdt pool w h = ground (arith, get-given name client max_usdt pool w)
