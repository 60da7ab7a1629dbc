-- ===== src/Prelude/Host.antt =====
-- The contract host as the contracts see it: addresses, the ledger clock, authorisation, instance
-- storage, and calls that either commit or panic. A panic discards every write of the call.
use Prim.Native.Nat.{ℕ}
use mathlib.Core.Path.{◌≡◌, refl}
use mathlib.Core.Logic.{◌⊎◌, inl, inr}
use mathlib.Core.Bool.{Bool, true, false}
use mathlib.Core.Option.{Option, none, some}
use veritasor_contracts.Prelude.Tests.{◌==◌, if◌then◌else◌}

-- Addresses are opaque and only compared.
abbrev pub Address : Type 0
Address = ℕ

-- What a call reads of its surroundings. `authorized a` says whether the transaction carries the
-- authorisation of `a` for this call, so it is what `a.require_auth()` tests.
pub record Env : Type 0 where
  pub timestamp : ℕ  -- u64, seconds
  pub sequence : ℕ  -- u32, the ledger sequence number
  pub authorized : Address → Bool
  pub current_contract : Address

pub data Result (E A : Type 0) : Type 0 where
  ok : A → Result E A
  err : E → Result E A

-- A call over the storage `S`, which panics with an `E` or returns with the new storage.
abbrev pub Action : Type 0 → Type 0 → Type 0 → Type 0
Action E S A = S → Result E (A × S)

abbrev pub ⊤ : Type 0
⊤ = Unit

module _ {E S : Type 0} where
  abbrev pub pure : {A : Type 0} → A → Action E S A
  pure a s = ok (a, s)

  abbrev pub panic : {A : Type 0} → E → Action E S A
  panic e s = err e

  -- `assert!(b, e)`
  abbrev pub ensure : Bool → E → Action E S ⊤
  ensure true e s = ok (tt, s)
  ensure false e s = err e

  -- a read of the storage
  abbrev pub gets : {A : Type 0} → (S → A) → Action E S A
  gets f s = ok (f s, s)

  abbrev pub modify : (S → S) → Action E S ⊤
  modify f s = ok (tt, f s)

  -- `.unwrap()` and `.expect(e)`
  abbrev pub expect : {A : Type 0} → Option A → E → Action E S A
  expect none e s = err e
  expect (some a) e s = ok (a, s)

  -- the result of a function that neither reads nor writes the storage
  abbrev pub lift : {A : Type 0} → Result E A → Action E S A
  lift (ok a) s = ok (a, s)
  lift (err e) s = err e

infixl 5 ◌>>=◌ ◌>>◌
abbrev pub ◌>>=◌ : {E S A B : Type 0} → Action E S A → (A → Action E S B) → Action E S B
◌>>=◌ m f s = elim (m s) [ ok (a, s') ↦ f a s' | err e ↦ err e ]

abbrev pub ◌>>◌ : {E S A B : Type 0} → Action E S A → Action E S B → Action E S B
m >> k = m >>= λ _. k

-- The storage after the transaction: that of the call, or the old one after a panic.
abbrev pub settle : {E S A : Type 0} → S → Result E (A × S) → S
settle s (ok (a, s')) = s'
settle s (err e) = s

-- A family of storage keys, `DataKey::K(a)`: `none` where nothing is stored.
abbrev pub Slots {ℓ} : Type ℓ → Type ℓ
Slots V = ℕ → Option V

module _ {ℓ} {V : Type ℓ} where
  abbrev pub store : Slots V → ℕ → V → Slots V
  store m k v j = if k == j then some v else m j

  abbrev pub remove : Slots V → ℕ → Slots V
  remove m k j = if k == j then none else m j

  abbrev pub is_some : Option V → Bool
  is_some none = false
  is_some (some v) = true

pub Result-cases :
    {E A : Type 0} (r : Result E A) → ((a : A) × (r ≡ ok a)) ⊎ ((e : E) × (r ≡ err e))
Result-cases (ok a) = inl (a, refl)
Result-cases (err e) = inr (e, refl)
