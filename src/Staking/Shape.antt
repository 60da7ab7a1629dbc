-- ===== src/Staking/Shape.antt =====
-- What the queue operations keep: amounts, sums, lengths and the order of unlock times.
use veritasor_contracts.Prelude.{
  ℕ, suc, ◌+◌, ◌-◌, ◌≤◌, ◌≡◌, ◌≢◌, refl, ap, List, [], ◌∷◌, ◌++◌, arith, length, All,
}
use veritasor_contracts.Staking.Types.{PendingUnstake}
use veritasor_contracts.Staking.Queue.{unlock_time}
use veritasor_contracts.Staking.Loops.{units, due, waiting, cut, Plain}

-- What lowering a queue keeps and changes.
abbrev pub times : List PendingUnstake → List ℕ
times [] = []
times (p ∷ rest) = p.unlock_timestamp ∷ times rest

pub cut_left : (q : List PendingUnstake) (e : ℕ) → (cut q e).1 ≡ e - units q
cut_left [] e = omega arith
cut_left (p ∷ newer) e = omega (arith, cut_left newer e)

pub units-cut : (q : List PendingUnstake) (e : ℕ) → units (cut q e).0 ≡ units q - e
units-cut [] e = omega arith
units-cut (p ∷ newer) e = omega (arith, units-cut newer e, cut_left newer e)

pub times-cut : (q : List PendingUnstake) (e : ℕ) → times (cut q e).0 ≡ times q
times-cut [] e = refl
times-cut (p ∷ newer) e = ap (◌∷◌ p.unlock_timestamp) (times-cut newer e)

pub cut-Plain : (q : List PendingUnstake) (e : ℕ) → Plain (cut q e).0
cut-Plain [] e = tt
cut-Plain (p ∷ newer) e = (refl, cut-Plain newer e)

pub length-times : (q : List PendingUnstake) → length (times q) ≡ length q
length-times [] = refl
length-times (p ∷ rest) = ap suc (length-times rest)

-- What withdrawing from a queue keeps.
pub units-waiting :
    (now : ℕ) (q : List PendingUnstake) → units (waiting now q) + due now q ≡ units q
units-waiting now [] = omega arith
units-waiting now (p ∷ rest) = ground (arith, units-waiting now rest)

pub waiting-Plain : (now : ℕ) (q : List PendingUnstake) → Plain q → Plain (waiting now q)
waiting-Plain now [] h = tt
waiting-Plain now (p ∷ rest) h = ground (arith, waiting-Plain now rest h.1)

pub length-waiting-le : (now : ℕ) (q : List PendingUnstake) → length (waiting now q) ≤ length q
length-waiting-le now [] = omega arith
length-waiting-le now (p ∷ rest) = ground (arith, length-waiting-le now rest)

-- Unlock times never fall along a queue.
abbrev pub AllFrom : ℕ → List ℕ → Type 0
AllFrom from = All (λ t. from ≤ t)

abbrev pub Ascending : List ℕ → Type 0
Ascending [] = Unit
Ascending (t ∷ rest) = AllFrom t rest × Ascending rest

AllFrom-waiting :
    (from now : ℕ) (q : List PendingUnstake)
    → AllFrom from (times q)
    → AllFrom from (times (waiting now q))
AllFrom-waiting from now [] h = tt
AllFrom-waiting from now (p ∷ rest) h = ground (arith, AllFrom-waiting from now rest h.1)

pub waiting-Ascending :
    (now : ℕ) (q : List PendingUnstake) → Ascending (times q) → Ascending (times (waiting now q))
waiting-Ascending now [] h = tt
waiting-Ascending now (p ∷ rest) h =
    ground (arith, waiting-Ascending now rest h.1, AllFrom-waiting p.unlock_timestamp now rest h.0)

AllFrom-snoc :
    (from : ℕ) (q : List PendingUnstake) (p : PendingUnstake)
    → AllFrom from (times q)
    → from ≤ p.unlock_timestamp
    → AllFrom from (times (q ++ p ∷ []))
AllFrom-snoc from [] p h le = (le, tt)
AllFrom-snoc from (x ∷ rest) p h le = (h.0, AllFrom-snoc from rest p h.1 le)

-- The time given to a new entry is not before that of any entry of an ascending queue.
last-ge :
    (at from : ℕ) (q : List PendingUnstake)
    → AllFrom from (times q)
    → q ≢ []
    → from ≤ unlock_time at q
unfolding unlock_time
last-ge at from [] h ne = absurd (ne refl)
last-ge at from (x ∷ []) h ne = ground arith
last-ge at from (x ∷ y ∷ rest) h ne = last-ge at from (y ∷ rest) h.1 (λ e. cc)

unlock_time-cons :
    (at : ℕ) (x y : PendingUnstake) (rest : List PendingUnstake)
    → unlock_time at (x ∷ y ∷ rest) ≡ unlock_time at (y ∷ rest)
unfolding unlock_time
unlock_time-cons at x y rest = refl

pub at-le-unlock_time : (at : ℕ) (q : List PendingUnstake) → at ≤ unlock_time at q
unfolding unlock_time
at-le-unlock_time at [] = omega arith
at-le-unlock_time at (x ∷ []) = ground arith
at-le-unlock_time at (x ∷ y ∷ rest) = at-le-unlock_time at (y ∷ rest)

pub snoc-Ascending :
    (at : ℕ) (q : List PendingUnstake) (p : PendingUnstake)
    → Ascending (times q)
    → p.unlock_timestamp ≡ unlock_time at q
    → Ascending (times (q ++ p ∷ []))
snoc-Ascending at [] p h e = (tt, tt)
snoc-Ascending at (x ∷ []) p h e =
    ((rw e (last-ge at x.unlock_timestamp (x ∷ []) (omega arith, tt) (λ n. cc)), tt), (tt, tt))
snoc-Ascending at (x ∷ y ∷ rest) p h e = (
  AllFrom-snoc x.unlock_timestamp (y ∷ rest) p h.0 (
      rw (e, unlock_time-cons at x y rest)
        (last-ge at x.unlock_timestamp (y ∷ rest) h.0 (λ n. cc))),
  snoc-Ascending at (y ∷ rest) p h.1 (rw (← unlock_time-cons at x y rest) e),
)

pub units-append : (q r : List PendingUnstake) → units (q ++ r) ≡ units q + units r
units-append [] r = omega arith
units-append (p ∷ rest) r = omega (arith, units-append rest r)
