-- ===== src/Vault/Ledger/Listed.antt =====
-- The shape of the whitelist and of the trackers over whole histories of the vault
-- (contracts/august-vault/src/contract.rs), whatever the requests.
use stellar_upshift_vault_co.Base.{
  sym, ◌∙◌, ◌≡◌, ◌≢◌, ◌≤◌, ◌⊎◌, inl, inr, refl, Option, none, [], ◌∷◌, length, ℕ_discrete, arith,
}
use stellar_upshift_vault_co.Base.Int.{ℤ, pos, ◌≤ℤ◌}
use stellar_upshift_vault_co.Soroban.{Address}
use stellar_upshift_vault_co.Vault.Storage.{
  Storage, Map, SubaccountType, max_subaccounts, get_subaccounts, get_wallet_net_deployed, entry_or,
  with_entry, without_entry,
}
use stellar_upshift_vault_co.Vault.Subaccounts.{find_subaccount_index}
use stellar_upshift_vault_co.Vault.Batch.{Updates}
use stellar_upshift_vault_co.Vault.Books.{IsDistinct}
use stellar_upshift_vault_co.Vault.Books.Sums.{
  find-append, append-IsDistinct, without-erase, find-erase_ne, erase-IsDistinct,
}
use stellar_upshift_vault_co.Vault.Books.Batches.{AllWallets, written, Written}
use stellar_upshift_vault_co.Vault.Books.Whitelist.{Delisted}
use stellar_upshift_vault_co.Vault.Removal.{length-without}
use stellar_upshift_vault_co.Vault.Ledger.Changes.{Untouched, Wrote, Entered, Moved, Passed}

-- The whitelist has no repetition and respects its bound, no tracker is negative, and none stands
-- off the whitelist.
pub record IsListed (s : Storage) : Type 0 where
  pub distinct : IsDistinct (get_subaccounts s)
  pub few : length (get_subaccounts s) ≤ max_subaccounts
  pub nonneg : (a : Address) → pos 0 ≤ℤ get_wallet_net_deployed s a
  pub fresh :
      (a : Address)
      → find_subaccount_index (get_subaccounts s) a ≡ none
      → get_wallet_net_deployed s a ≡ pos 0

-- Entries of the tracker map after a write and after a removal.
entry-with_nonneg :
    (m : Option (Map ℤ)) (k a : Address) (v : ℤ)
    → pos 0 ≤ℤ v
    → pos 0 ≤ℤ entry_or m a (pos 0)
    → pos 0 ≤ℤ entry_or (with_entry m k v) a (pos 0)
entry-with_nonneg m k a v h old = ground arith

entry-without_nonneg :
    (m : Option (Map ℤ)) (k a : Address)
    → pos 0 ≤ℤ entry_or m a (pos 0)
    → pos 0 ≤ℤ entry_or (without_entry m k) a (pos 0)
entry-without_nonneg m k a old = ground arith

entry-with_other :
    (m : Option (Map ℤ)) (k a : Address) (v : ℤ)
    → a ≢ k
    → entry_or (with_entry m k v) a (pos 0) ≡ entry_or m a (pos 0)
entry-with_other m k a v ne = ground arith

entry-without_zero :
    (m : Option (Map ℤ)) (k a : Address)
    → (a ≡ k) ⊎ (entry_or m a (pos 0) ≡ pos 0)
    → entry_or (without_entry m k) a (pos 0) ≡ pos 0
entry-without_zero m k a h = ground arith

module _ {s s' : Storage} where
  pub Untouched-IsListed : Untouched s s' → IsListed s → IsListed s'
  Untouched-IsListed u h = record {
    distinct = rw u.subaccounts h.distinct;
    few = rw u.subaccounts h.few;
    nonneg = λ a. rw u.wallet_net_deployed (h.nonneg a);
    fresh = λ a off. rw u.wallet_net_deployed (h.fresh a (rw u.subaccounts at off));
  }

  pub Wrote-IsListed : {k : Address} {v : ℤ} → Wrote k v s s' → IsListed s → IsListed s'
  Wrote-IsListed {k} {v} u h = record {
    distinct = rw u.subaccounts h.distinct;
    few = rw u.subaccounts h.few;
    nonneg = λ a.
        rw u.wallet_net_deployed
          (entry-with_nonneg s.wallet_net_deployed k a v u.nonneg (h.nonneg a));
    fresh = λ a off.
        let off' = rw u.subaccounts at off in
        rw
          (
            u.wallet_net_deployed,
            entry-with_other s.wallet_net_deployed k a v (λ e. u.listed (rw (← e) off')),
          )
          (h.fresh a off');
  }

  pub Entered-IsListed :
      {k : Address} {kind : SubaccountType} → Entered k kind s s' → IsListed s → IsListed s'
  Entered-IsListed {k} u h = record {
    distinct = rw u.subaccounts (append-IsDistinct (get_subaccounts s) k h.distinct u.unlisted);
    few = rw u.subaccounts u.few;
    nonneg = λ a. rw u.wallet_net_deployed (h.nonneg a);
    fresh = λ a off.
        rw u.wallet_net_deployed
          (h.fresh a (find-append (get_subaccounts s) k a (rw u.subaccounts at off)).0);
  }

  pub Delisted-IsListed :
      {k : Address} {d : Option ℤ} → Delisted k d s s' → IsListed s → IsListed s'
  Delisted-IsListed {k} u h = record {
    distinct =
        rw (u.subaccounts, without-erase (get_subaccounts s) k u.index u.found)
          (erase-IsDistinct k (get_subaccounts s) h.distinct);
    few = rw u.subaccounts (omega (arith, h.few, length-without (get_subaccounts s) u.index));
    nonneg =
        λ a. rw u.wallet_net_deployed (entry-without_nonneg s.wallet_net_deployed k a (h.nonneg a));
    fresh = λ a off.
        let off' = rw (u.subaccounts, without-erase (get_subaccounts s) k u.index u.found) at off in
        rw u.wallet_net_deployed (
          entry-without_zero s.wallet_net_deployed k a (elim (ℕ_discrete a k) [
            | yes same ↦ inl same
            | no other ↦
                inr (h.fresh a (find-erase_ne k a (get_subaccounts s) (λ e. other (sym e)) off'))
          ]));
  }

  pub Moved-IsListed :
      {R : ℤ → ℤ → Type 0} {k : Address} → Passed k s s' ⊎ Moved R k s s' → IsListed s → IsListed s'
  Moved-IsListed (inl p) = Untouched-IsListed p.untouched
  Moved-IsListed (inr m) = Wrote-IsListed m.wrote

-- The trackers of a batch.
written_nonneg :
    (updates : Updates) (s : Storage) (m : Option (Map ℤ)) (a : Address)
    → AllWallets s updates
    → pos 0 ≤ℤ entry_or m a (pos 0)
    → pos 0 ≤ℤ entry_or (written m updates) a (pos 0)
written_nonneg [] s m a h old = old
written_nonneg ((k, v) ∷ updates) s m a h old =
    written_nonneg updates s (with_entry m k v) a h.3 (entry-with_nonneg m k a v h.2 old)

written_fresh :
    (updates : Updates) (s : Storage) (m : Option (Map ℤ)) (a : Address)
    → AllWallets s updates
    → find_subaccount_index (get_subaccounts s) a ≡ none
    → entry_or (written m updates) a (pos 0) ≡ entry_or m a (pos 0)
written_fresh [] s m a h off = refl
written_fresh ((k, v) ∷ updates) s m a h off =
    written_fresh updates s (with_entry m k v) a h.3 off
    ∙ entry-with_other m k a v (λ e. h.0 (rw (← e) off))

pub Written-IsListed :
    {s s' : Storage} {d : ℤ} (updates : Updates)
    → AllWallets s updates
    → Written updates d s s'
    → IsListed s
    → IsListed s'
Written-IsListed {s} updates all u h = record {
  distinct = rw u.subaccounts h.distinct;
  few = rw u.subaccounts h.few;
  nonneg = λ a.
      rw u.wallet_net_deployed (written_nonneg updates s s.wallet_net_deployed a all (h.nonneg a));
  fresh = λ a off.
      let off' = rw u.subaccounts at off in
      rw (u.wallet_net_deployed, written_fresh updates s s.wallet_net_deployed a all off')
        (h.fresh a off');
}
