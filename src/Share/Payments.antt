-- ===== src/Share/Payments.antt =====
-- The payments of a distribution, one for each stakeholder who gets something.
use veritasor_contracts.Prelude.{
  some_injective, subst, ℕ, suc, ◌≡◌, List, [], ◌∷◌, map, length, some, Address, arith,
  Option-cases, inl, inr, zero,
}
use veritasor_contracts.Prelude.Int.{pos}
use veritasor_contracts.Share.Types.{Stakeholder, Token}
use veritasor_contracts.Share.Calls.{pay_all}

abbrev pub address_of : Stakeholder → Address
address_of x = x.address

module _ {L : Type 0} (token : Token L) (currency business : Address) where
  -- The transfers that lead from one ledger to another: each of the addresses receives its amount in
  -- `currency` out of the account of `business`, in order, and nobody is sent an amount of zero.
  pub data Payments : List Address → List ℕ → L → L → Type 0 where
    all_paid : {l : L} → Payments [] [] l l
    owed_nothing :
        {to : Address} {addresses : List Address} {amounts : List ℕ} {l l' : L}
        → Payments addresses amounts l l'
        → Payments (to ∷ addresses) (0 ∷ amounts) l l'
    paying :
        {to : Address} {addresses : List Address} {n : ℕ} {amounts : List ℕ} {l next l' : L}
        → token.transfer currency business to (pos (suc n)) l ≡ some next
        → Payments addresses amounts next l'
        → Payments (to ∷ addresses) (suc n ∷ amounts) l l'

  pub pay_all-Payments :
      (xs : List Stakeholder) (ns : List ℕ) (l l' : L)
      → length ns ≡ length xs
      → pay_all token currency business xs (map pos ns) l ≡ some l'
      → Payments (map address_of xs) ns l l'
  unfolding pay_all
  pay_all-Payments [] [] l l' same h = subst (Payments [] [] l) (some_injective l l' h) all_paid
  pay_all-Payments [] (n ∷ ns) l l' same h = absurd (omega arith)
  pay_all-Payments (x ∷ xs) [] l l' same h = absurd (omega arith)
  pay_all-Payments (x ∷ xs) (zero ∷ ns) l l' same h =
      owed_nothing (pay_all-Payments xs ns l l' (omega arith) h)
  pay_all-Payments (x ∷ xs) (suc n ∷ ns) l l' same h =
      elim (Option-cases (token.transfer currency business x.address (pos (suc n)) l)) [
        | inl e ↦ absurd (ground (arith, e))
        | inr (next, e) ↦
            paying e (pay_all-Payments xs ns next l' (omega arith) (ground (arith, e)))
      ]
