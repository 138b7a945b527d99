-- ===== src/Vault/Books/Sums.antt =====
-- Sums over a whitelist: when they agree, and how they change at one address.
use stellar_upshift_vault_co.Base.{
  ℕ, suc, ◌+◌, ◌<◌, ◌≡◌, ◌≢◌, refl, inl, inr, none, some, List, [], ◌∷◌, ◌++◌, arith, ◌==◌,
  if◌then◌else◌, Bool-cases, Option-cases,
}
use stellar_upshift_vault_co.Base.Int.{ℤ, ◌+ℤ◌, int_laws}
use stellar_upshift_vault_co.Soroban.{Address}
use stellar_upshift_vault_co.Vault.Subaccounts.{
  find_subaccount_index, without_index_from, subaccounts_without_index,
}
use stellar_upshift_vault_co.Vault.Books.{IsDistinct, sum}

pub sum_congr :
    (c c' : Address → ℤ) (subs : List Address)
    → ((a : Address) → find_subaccount_index subs a ≢ none → c a ≡ c' a)
    → sum c subs ≡ sum c' subs
unfolding sum find_subaccount_index
sum_congr c c' [] h = refl
sum_congr c c' (sub ∷ subs) h =
    ground (arith, h sub, sum_congr c c' subs (λ a m. h a (ground arith)))

-- A value that changes at one listed address changes the sum by as much.
pub sum_change :
    (c c' : Address → ℤ) (k : Address) (subs : List Address)
    → IsDistinct subs
    → find_subaccount_index subs k ≢ none
    → ((a : Address) → a ≢ k → c a ≡ c' a)
    → sum c' subs +ℤ c k ≡ sum c subs +ℤ c' k
unfolding sum find_subaccount_index
sum_change c c' k [] d m h = absurd (m refl)
sum_change c c' k (sub ∷ subs) d m h = elim (Bool-cases (sub == k)) [
  | inl here ↦
      let at_k : sub ≡ k = ground arith in
      let rest = sum_congr c c' subs (λ a m'. h a (λ e. m' (ground arith))) in
      rw (at_k, rest) (omega int_laws)
  | inr there ↦
      let same = h sub (ground arith) in
      let rest = sum_change c c' k subs d.1 (ground arith) h in rw same (grind int_laws)
]

pub sum-append :
    (c : Address → ℤ) (xs : List Address) (a : Address) → sum c (xs ++ a ∷ []) ≡ sum c xs +ℤ c a
unfolding sum
sum-append c [] a = omega int_laws
sum-append c (x ∷ xs) a = rw (sum-append c xs a) (omega int_laws)

pub find-append :
    (xs : List Address) (a b : Address)
    → find_subaccount_index (xs ++ a ∷ []) b ≡ none
    → (find_subaccount_index xs b ≡ none) × (a ≢ b)
unfolding find_subaccount_index
find-append [] a b h = ground arith
find-append (x ∷ xs) a b h = ground (arith, find-append xs a b)

-- A whitelist without the first occurrence of an address.
abbrev pub erase : Address → List Address → List Address
erase k [] = []
erase k (sub ∷ subs) = if sub == k then subs else sub ∷ erase k subs

without_index_from_past :
    (n : ℕ) (subs : List Address) (idx : ℕ) → idx < n → without_index_from n subs idx ≡ subs
unfolding without_index_from
without_index_from_past n [] idx h = refl
without_index_from_past n (sub ∷ subs) idx h =
    ground (arith, without_index_from_past (suc n) subs idx)

without_index_from-erase :
    (n : ℕ) (subs : List Address) (k : Address) (i : ℕ)
    → find_subaccount_index subs k ≡ some i
    → without_index_from n subs (n + i) ≡ erase k subs
unfolding without_index_from find_subaccount_index
without_index_from-erase n [] k i h = refl
without_index_from-erase n (sub ∷ subs) k i h = elim (Option-cases (find_subaccount_index subs k)) [
  | inl missing ↦ ground (arith, without_index_from_past (suc n) subs (n + i))
  | inr (j, found) ↦ ground (
    arith,
    without_index_from_past (suc n) subs (n + i),
    without_index_from-erase (suc n) subs k j found,
  )
]

-- Where an address has an index, `subaccounts_without_index` at that index is the whitelist without
-- the address's first occurrence.
pub without-erase :
    (subs : List Address) (k : Address) (i : ℕ)
    → find_subaccount_index subs k ≡ some i
    → subaccounts_without_index subs i ≡ erase k subs
unfolding subaccounts_without_index
without-erase subs k i h = ground (arith, without_index_from-erase 0 subs k i h)

pub sum-erase :
    (c : Address → ℤ) (k : Address) (subs : List Address)
    → find_subaccount_index subs k ≢ none
    → sum c (erase k subs) +ℤ c k ≡ sum c subs
unfolding sum find_subaccount_index
sum-erase c k [] m = absurd (m refl)
sum-erase c k (sub ∷ subs) m = elim (Bool-cases (sub == k)) [
  | inl here ↦ let at_k : sub ≡ k = ground arith in rw (here, at_k) (omega int_laws)
  | inr there ↦ let rest = sum-erase c k subs (ground arith) in rw there (grind int_laws)
]

-- Erasing one address leaves the others listed, and unlisted, as they were.
pub find-erase_ne :
    (k b : Address) (subs : List Address)
    → k ≢ b
    → find_subaccount_index (erase k subs) b ≡ none
    → find_subaccount_index subs b ≡ none
unfolding find_subaccount_index
find-erase_ne k b [] ne h = refl
find-erase_ne k b (sub ∷ subs) ne h = ground (arith, find-erase_ne k b subs ne)

find-erase-none :
    (k b : Address) (subs : List Address)
    → find_subaccount_index subs b ≡ none
    → find_subaccount_index (erase k subs) b ≡ none
unfolding find_subaccount_index
find-erase-none k b [] h = refl
find-erase-none k b (sub ∷ subs) h = ground (arith, find-erase-none k b subs)

-- In a whitelist without repetitions an erased address is gone.
pub find-erase_self :
    (k : Address) (subs : List Address)
    → IsDistinct subs
    → find_subaccount_index (erase k subs) k ≡ none
unfolding find_subaccount_index
find-erase_self k [] d = refl
find-erase_self k (sub ∷ subs) d = ground (arith, find-erase_self k subs d.1)

pub erase-IsDistinct :
    (k : Address) (subs : List Address) → IsDistinct subs → IsDistinct (erase k subs)
erase-IsDistinct k [] d = tt
erase-IsDistinct k (sub ∷ subs) d =
    ground (arith, erase-IsDistinct k subs d.1, find-erase-none k sub subs d.0)

find-append_none :
    (subs : List Address) (a b : Address)
    → find_subaccount_index subs b ≡ none
    → a ≢ b
    → find_subaccount_index (subs ++ a ∷ []) b ≡ none
unfolding find_subaccount_index
find-append_none [] a b h ne = ground arith
find-append_none (sub ∷ subs) a b h ne = ground (arith, find-append_none subs a b)

pub append-IsDistinct :
    (subs : List Address) (a : Address)
    → IsDistinct subs
    → find_subaccount_index subs a ≡ none
    → IsDistinct (subs ++ a ∷ [])
unfolding find_subaccount_index
append-IsDistinct [] a d h = (refl, tt)
append-IsDistinct (sub ∷ subs) a d h =
    ground (arith, append-IsDistinct subs a d.1, find-append_none subs a sub d.0)
