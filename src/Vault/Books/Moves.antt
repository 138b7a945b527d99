-- ===== src/Vault/Books/Moves.antt =====
-- Every move keeps the books balanced.
use stellar_upshift_vault_co.Base.{
  ℕ, ◌≡◌, ◌≢◌, sym, ◌∙◌, Option, none, some, [], ◌∷◌, ◌++◌, arith, ℕ_discrete,
}
use stellar_upshift_vault_co.Base.Int.{ℤ, pos, ◌+ℤ◌, int_laws}
use stellar_upshift_vault_co.Soroban.{Address}
use stellar_upshift_vault_co.Vault.Storage.{
  Storage, SubaccountType, strategy, wallet, get_subaccounts, get_subaccount_type,
  get_wallet_net_deployed, get_deployed_assets, with_entry, without_entry, Map, entry_or,
}
use stellar_upshift_vault_co.Vault.Subaccounts.{find_subaccount_index}
use stellar_upshift_vault_co.Vault.Books.{
  sum, contribution, IsBalanced, Move, keep, book, enlist, delist,
}
use stellar_upshift_vault_co.Vault.Books.Sums.{
  sum_congr, sum_change, sum-append, find-append, append-IsDistinct, erase, without-erase,
  sum-erase, find-erase_ne, find-erase_self, erase-IsDistinct,
}

-- The arithmetic of a booking: with the old and the new contribution of the wallet put in.
settle :
    {sum' sum_s c c' tracked v deployed deployed' : ℤ}
    → sum' +ℤ c ≡ sum_s +ℤ c'
    → c ≡ tracked
    → c' ≡ v
    → sum_s ≡ deployed
    → deployed' +ℤ tracked ≡ deployed +ℤ v
    → sum' ≡ deployed'
settle change old new balanced t = grind int_laws

-- Entries of a map after a write and after a removal.
module _ {V : Type 0} where
  entry-with_self :
      (m : Option (Map V)) (k : Address) (v d : V) → entry_or (with_entry m k v) k d ≡ v
  entry-with_self m k v d = ground arith

  entry-with_ne :
      (m : Option (Map V)) (k a : Address) (v d : V)
      → a ≢ k
      → entry_or (with_entry m k v) a d ≡ entry_or m a d
  entry-with_ne m k a v d ne = ground arith

  entry-without_self :
      (m : Option (Map V)) (k : Address) (d : V) → entry_or (without_entry m k) k d ≡ d
  entry-without_self m k d = ground arith

  entry-without_ne :
      (m : Option (Map V)) (k a : Address) (d : V)
      → a ≢ k
      → entry_or (without_entry m k) a d ≡ entry_or m a d
  entry-without_ne m k a d ne = ground arith

module _ (s s' : Storage) where
  contribution_congr :
      (a : Address)
      → get_subaccount_type s' a ≡ get_subaccount_type s a
      → get_wallet_net_deployed s' a ≡ get_wallet_net_deployed s a
      → contribution s a ≡ contribution s' a
  contribution_congr a p q = rw (p, q)

  contribution_of_wallet :
      (a : Address)
      → get_subaccount_type s a ≡ wallet
      → contribution s a ≡ get_wallet_net_deployed s a
  contribution_of_wallet a p = rw p

  contribution_of_zero :
      (a : Address) → get_wallet_net_deployed s a ≡ pos 0 → contribution s a ≡ pos 0
  contribution_of_zero a p = ground (arith, p)

module _ (s s' : Storage) (b : IsBalanced s) where
  book-balanced :
      (k : Address) (v : ℤ)
      → find_subaccount_index (get_subaccounts s) k ≢ none
      → get_subaccount_type s k ≡ wallet
      → s'.subaccount_types ≡ s.subaccount_types
      → s'.wallet_net_deployed ≡ with_entry s.wallet_net_deployed k v
      → get_deployed_assets s' +ℤ get_wallet_net_deployed s k ≡ get_deployed_assets s +ℤ v
      → sum (contribution s') (get_subaccounts s) ≡ get_deployed_assets s'
  book-balanced k v listed kind q r t =
      settle (sum_change (contribution s) (contribution s') k _ b.distinct listed others)
        (contribution_of_wallet s s' k kind) new b.balanced t
    where
      others : (a : Address) → a ≢ k → contribution s a ≡ contribution s' a
      others a ne =
          contribution_congr s s' a (rw q)
            (rw r (entry-with_ne s.wallet_net_deployed k a v (pos 0) ne))

      new : contribution s' k ≡ v
      new =
          contribution_of_wallet s' s k (rw q kind)
          ∙ rw r (entry-with_self s.wallet_net_deployed k v (pos 0))

  enlist-balanced :
      (k : Address) (kind : SubaccountType)
      → find_subaccount_index (get_subaccounts s) k ≡ none
      → s'.subaccount_types ≡ with_entry s.subaccount_types k kind
      → s'.wallet_net_deployed ≡ s.wallet_net_deployed
      → sum (contribution s') (get_subaccounts s ++ k ∷ []) ≡ get_deployed_assets s
  enlist-balanced k kind new q r =
      let at_k = contribution_of_zero s' s k (rw r (b.fresh k new)) in
      let same = sum_congr (contribution s) (contribution s') (get_subaccounts s) others in
      let added = sum-append (contribution s') (get_subaccounts s) k in
      let balanced = b.balanced in grind int_laws
    where
      others :
          (a : Address)
          → find_subaccount_index (get_subaccounts s) a ≢ none
          → contribution s a ≡ contribution s' a
      others a listed =
          contribution_congr s s' a
            (rw q (entry-with_ne s.subaccount_types k a kind strategy (λ e. listed (rw e new))))
            (rw r)

  delist-fresh :
      (k : Address)
      → s'.wallet_net_deployed ≡ without_entry s.wallet_net_deployed k
      → (a : Address) → find_subaccount_index (erase k (get_subaccounts s)) a ≡ none
      → get_wallet_net_deployed s' a ≡ pos 0
  delist-fresh k r a h = elim (ℕ_discrete a k) [
    | yes same ↦ rw (same, r) (entry-without_self s.wallet_net_deployed k (pos 0))
    | no other ↦ rw r (
        entry-without_ne s.wallet_net_deployed k a (pos 0) other
        ∙ b.fresh a (find-erase_ne k a (get_subaccounts s) (λ e. other (sym e)) h))
  ]

  delist-balanced :
      (k : Address) (i : ℕ)
      → find_subaccount_index (get_subaccounts s) k ≡ some i
      → s'.subaccount_types ≡ without_entry s.subaccount_types k
      → s'.wallet_net_deployed ≡ without_entry s.wallet_net_deployed k
      → get_deployed_assets s' +ℤ contribution s k ≡ get_deployed_assets s
      → sum (contribution s') (erase k (get_subaccounts s)) ≡ get_deployed_assets s'
  delist-balanced k i found q r t =
      let same =
        sum_congr (contribution s) (contribution s') (erase k (get_subaccounts s)) others in
      let removed = sum-erase (contribution s) k (get_subaccounts s) (λ h. cc) in
      let balanced = b.balanced in grind int_laws
    where
      others :
          (a : Address)
          → find_subaccount_index (erase k (get_subaccounts s)) a ≢ none
          → contribution s a ≡ contribution s' a
      others a listed =
          let ne : a ≢ k = λ e. listed (rw e (find-erase_self k (get_subaccounts s) b.distinct)) in
          contribution_congr s s' a (rw q (entry-without_ne s.subaccount_types k a strategy ne))
            (rw r (entry-without_ne s.wallet_net_deployed k a (pos 0) ne))

-- Every move of the books keeps them balanced.
pub Move-IsBalanced : {s s' : Storage} → Move s s' → IsBalanced s → IsBalanced s'
Move-IsBalanced {s} {s'} (keep p q r t) b = record {
  distinct = rw p b.distinct;
  fresh = λ a h. rw r (b.fresh a (rw p at h));
  balanced = rw (p, q, r, t) b.balanced;
}
Move-IsBalanced {s} {s'} (book k v listed kind p q r t) b = record {
  distinct = rw p b.distinct;
  fresh = λ a h.
      let h' = rw p at h in
      rw r (
        entry-with_ne s.wallet_net_deployed k a v (pos 0) (λ e. listed (rw (← e) h'))
        ∙ b.fresh a h');
  balanced = rw p (book-balanced s s' b k v listed kind q r t);
}
Move-IsBalanced {s} {s'} (enlist k kind new p q r t) b = record {
  distinct = rw p (append-IsDistinct (get_subaccounts s) k b.distinct new);
  fresh = λ a h. rw r (b.fresh a (find-append (get_subaccounts s) k a (rw p at h)).0);
  balanced = rw (p, t) (enlist-balanced s s' b k kind new q r);
}
Move-IsBalanced {s} {s'} (delist k i found p q r t) b = record {
  distinct =
      rw (p, without-erase (get_subaccounts s) k i found)
        (erase-IsDistinct k (get_subaccounts s) b.distinct);
  fresh =
      λ a h. delist-fresh s s' b k r a (rw (p, without-erase (get_subaccounts s) k i found) at h);
  balanced =
      rw (p, without-erase (get_subaccounts s) k i found) (delist-balanced s s' b k i found q r t);
}
