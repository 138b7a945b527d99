-- ===== src/Vault/Ledger/Refines.antt =====
-- The requests of contracts/august-vault/src/contract.rs against the abstract ledger.
use stellar_upshift_vault_co.Base.{
  ◌≡◌, ◌≢◌, ◌⊎◌, inl, inr, refl, ◌∙◌, false, ◌||◌, Option, none, some, List, [], ◌∷◌, ◌++◌, ◌==◌,
  is_some, if◌then◌else◌, arith,
}
use stellar_upshift_vault_co.Base.Int.{ℤ, pos}
use stellar_upshift_vault_co.Soroban.{Address}
use stellar_upshift_vault_co.Vault.Storage.{
  Storage, Map, SubaccountType, strategy, wallet, get_subaccounts, get_subaccount_type,
  get_wallet_net_deployed, with_entry,
}
use stellar_upshift_vault_co.Vault.Subaccounts.{find_subaccount_index}
use stellar_upshift_vault_co.Vault.Batch.{Updates}
use stellar_upshift_vault_co.Vault.Books.{IsDistinct}
use stellar_upshift_vault_co.Vault.Books.Sums.{erase, without-erase}
use stellar_upshift_vault_co.Vault.Books.Batches.{AllWallets, written, Written}
use stellar_upshift_vault_co.Vault.Books.Whitelist.{Delisted}
use stellar_upshift_vault_co.Vault.Ledger.{
  Ledger, by_strategy, by_wallet, holding, ledger, put, drop, put_all, AllTracked, Same, Tracks,
}
use stellar_upshift_vault_co.Vault.Ledger.Changes.{Untouched, Wrote, Entered, Moved, Passed}

-- Whether an address is listed after an address is appended, and after one is erased.
listed-append :
    (subs : List Address) (k a : Address)
    → is_some (find_subaccount_index (subs ++ k ∷ []) a)
      ≡ (is_some (find_subaccount_index subs a) || a == k)
unfolding find_subaccount_index
listed-append [] k a = ground arith
listed-append (sub ∷ subs) k a = ground (arith, listed-append subs k a)

listed-erase :
    (subs : List Address) (k a : Address)
    → IsDistinct subs
    → is_some (find_subaccount_index (erase k subs) a)
      ≡ (if a == k then false else is_some (find_subaccount_index subs a))
unfolding find_subaccount_index
listed-erase [] k a d = ground arith
listed-erase (sub ∷ subs) k a d = ground (arith, listed-erase subs k a d.1, d.0)

-- A listed wallet stands in the ledger with its tracker, a listed strategy as such.
pub ledger_wallet :
    (s : Storage) (k : Address)
    → find_subaccount_index (get_subaccounts s) k ≢ none
    → get_subaccount_type s k ≡ wallet
    → ledger s k ≡ some (by_wallet (get_wallet_net_deployed s k))
ledger_wallet s k listed kind = ground arith

pub ledger_strategy :
    (s : Storage) (k : Address)
    → find_subaccount_index (get_subaccounts s) k ≢ none
    → get_subaccount_type s k ≡ strategy
    → ledger s k ≡ some by_strategy
ledger_strategy s k listed kind = ground arith

module _ {s s' : Storage} where
  pub Untouched-Same : Untouched s s' → Same (ledger s) (ledger s')
  Untouched-Same u a = rw (u.subaccounts, u.subaccount_types, u.wallet_net_deployed) refl

  Wrote-put :
      {k : Address} {v : ℤ} → Wrote k v s s' → Same (put k (by_wallet v) (ledger s)) (ledger s')
  Wrote-put {k} {v} u a =
      rw (u.subaccounts, u.subaccount_types, u.wallet_net_deployed)
        (ground (arith, u.listed, u.kind))

  pub Entered-put :
      {k : Address} {kind : SubaccountType}
      → get_wallet_net_deployed s k ≡ pos 0
      → Entered k kind s s'
      → Same (put k (holding kind (pos 0)) (ledger s)) (ledger s')
  Entered-put {k} zero u a =
      rw (u.subaccounts, u.subaccount_types, u.wallet_net_deployed)
        (ground (arith, u.unlisted, zero, listed-append (get_subaccounts s) k a))

  pub Delisted-drop :
      {k : Address} {d : Option ℤ}
      → IsDistinct (get_subaccounts s)
      → Delisted k d s s'
      → Same (drop k (ledger s)) (ledger s')
  Delisted-drop {k} distinct u a =
      rw
        (
          u.subaccounts,
          u.subaccount_types,
          u.wallet_net_deployed,
          without-erase (get_subaccounts s) k u.index u.found,
        )
        (ground (arith, listed-erase (get_subaccounts s) k a distinct))

-- Writing entry after entry, on lists of updates.
put_all_congr :
    (updates : Updates) (l l' : Ledger) → Same l l' → Same (put_all updates l) (put_all updates l')
put_all_congr [] l l' h a = h a
put_all_congr ((k, v) ∷ updates) l l' h a =
    put_all_congr updates (put k (by_wallet v) l) (put k (by_wallet v) l')
      (λ b. ground (arith, h b)) a

-- The storage with the trackers `m`.
abbrev with_trackers : Storage → Option (Map ℤ) → Storage
with_trackers s m = record s { wallet_net_deployed = m }

AllWallets-with_trackers :
    (s : Storage) (m : Option (Map ℤ)) (updates : Updates)
    → AllWallets s updates
    → AllWallets (with_trackers s m) updates
AllWallets-with_trackers s m [] h = tt
AllWallets-with_trackers s m ((k, v) ∷ updates) h =
    (h.0, h.1, h.2, AllWallets-with_trackers s m updates h.3)

pub AllWallets-AllTracked :
    (s : Storage) (updates : Updates) → AllWallets s updates → AllTracked (ledger s) updates
AllWallets-AllTracked s [] h = tt
AllWallets-AllTracked s ((k, v) ∷ updates) h = (
  (get_wallet_net_deployed s k, ledger_wallet s k h.0 h.1),
  h.2,
  AllWallets-AllTracked s updates h.3,
)

written-put_all :
    (updates : Updates) (s : Storage)
    → AllWallets s updates
    → Same
        (put_all updates (ledger s))
        (ledger (with_trackers s (written s.wallet_net_deployed updates)))
written-put_all [] s h a = refl
written-put_all ((k, v) ∷ updates) s h a =
    let s₁ = with_trackers s (with_entry s.wallet_net_deployed k v) in
    let first : Wrote k v s s₁ = record {
      listed = h.0;
      kind = h.1;
      nonneg = h.2;
      subaccounts = refl;
      subaccount_types = refl;
      wallet_net_deployed = refl;
    } in
    written-put_all updates s₁
      (AllWallets-with_trackers s (with_entry s.wallet_net_deployed k v) updates h.3) a
    ∙ put_all_congr updates (put k (by_wallet v) (ledger s)) (ledger s₁) (Wrote-put first) a

pub Written-put_all :
    {s s' : Storage} {d : ℤ} (updates : Updates)
    → AllWallets s updates
    → Written updates d s s'
    → Same (put_all updates (ledger s)) (ledger s')
Written-put_all {s} updates h u a =
    rw (u.subaccounts, u.subaccount_types, u.wallet_net_deployed) (written-put_all updates s h a)

-- One request: its record of changes gives its line of the specification.
module _ {s s' : Storage} where
  pub Wrote-Tracks :
      {R : ℤ → ℤ → Type 0} {k : Address} {v : ℤ}
      → R (get_wallet_net_deployed s k) v
      → Wrote k v s s'
      → Tracks R k (ledger s) (ledger s')
  Wrote-Tracks {k = k} {v = v} r u =
      (get_wallet_net_deployed s k, v, ledger_wallet s k u.listed u.kind, r, Wrote-put u)

  pub Changed-Spec :
      {R : ℤ → ℤ → Type 0} {k : Address}
      → Passed k s s' ⊎ Moved R k s s'
      → ((ledger s k ≡ some by_strategy) × Same (ledger s) (ledger s'))
        ⊎ Tracks R k (ledger s) (ledger s')
  Changed-Spec {k = k} (inl p) =
      inl (ledger_strategy s k p.listed p.kind, Untouched-Same p.untouched)
  Changed-Spec (inr m) = inr (Wrote-Tracks m.related m.wrote)
