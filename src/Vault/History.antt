-- ===== src/Vault/History.antt =====
-- Histories of the vault (contracts/august-vault/src/contract.rs): invocations that return, each
-- with its own environment, and changes outside the vault between them. An invocation that panics
-- is rolled back, so it leaves no trace.
use stellar_upshift_vault_co.Base.{◌≡◌}
use stellar_upshift_vault_co.Soroban.{ok, Ensures, Ensures_ok}
use stellar_upshift_vault_co.Vault.Storage.{Storage}
use stellar_upshift_vault_co.Vault.State.{Env, World}
use stellar_upshift_vault_co.Vault.Entry.{Request, execute}

pub data History {X : Type 0} (w : World X) : World X → Type 0 where
  here : History w w
  next :
      {w₁ w₂ : World X} (e : Env X) (r : Request)
      → History w w₁
      → execute e r w₁ ≡ ok tt w₂
      → History w w₂
  outside : {w₁ : World X} (x : X) → History w w₁ → History w (record w₁ { ext = x })

-- What every request keeps holds along a history.
pub History-invariant :
    {X : Type 0} (P : Storage → Type 0)
    → ((e : Env X) (r : Request) (w : World X)
        → P w.store
        → Ensures (λ _ w'. P w'.store) (execute e r w))
    → {w w' : World X} → P w.store
    → History w w'
    → P w'.store
History-invariant P step p here = p
History-invariant P step p (next {w₁} {w₂} e r h returned) =
    Ensures_ok (λ _ w'. P w'.store) returned (step e r w₁ (History-invariant P step p h))
History-invariant P step p (outside x h) = History-invariant P step p h
