-- ===== src/Replay/Streams.antt =====
-- Histories of nonce-protected calls: a nonce that was accepted is never accepted again.
use veritasor_contracts.Prelude.{
  ℕ, ◌+◌, ◌≤◌, ◌≡◌, ◌∙◌, ap, ◌&&◌, ltb, ◌==◌, if◌then◌else◌, arith, Address, Result, ok, err, ⊤,
  settle, Bool-cases, inl, inr, List, [], ◌∷◌, refl,
}
use veritasor_contracts.Prelude.Int.{u64_max}
use veritasor_contracts.Replay.{
  Nonces, Error, nonce_mismatch, get_nonce, set_nonce, verify_and_increment_nonce,
}
use veritasor_contracts.Replay.Laws.{verify_and_increment_nonce-cases, get_nonce-verify}

-- One protected call: its actor, its channel and the nonce it presents.
pub record Call : Type 0 where
  pub actor : Address
  pub channel : ℕ
  pub nonce : ℕ

abbrev pub present : Call → Nonces → Result Error (⊤ × Nonces)
present call = verify_and_increment_nonce call.actor call.channel call.nonce

-- A history of transactions, of which those that panic are rolled back.
unfoldable pub run : List Call → Nonces → Nonces
run [] s = s
run (call ∷ calls) s = run calls (settle s (present call s))

get_nonce-settle :
    (a : Address) (c : ℕ) (call : Call) (s : Nonces) (r : Result Error (⊤ × Nonces))
    → present call s ≡ r
    → get_nonce a c s ≤ get_nonce a c (settle s r)
get_nonce-settle a c call s (ok (tt, s')) h =
    ground (arith, get_nonce-verify call.actor a call.channel c call.nonce s s' h)
get_nonce-settle a c call s (err e) h = omega arith

get_nonce-run-le :
    (a : Address) (c : ℕ) (calls : List Call) (s : Nonces)
    → get_nonce a c s ≤ get_nonce a c (run calls s)
unfolding run
get_nonce-run-le a c [] s = omega arith
get_nonce-run-le a c (call ∷ calls) s = omega (
  arith,
  get_nonce-settle a c call s (present call s) refl,
  get_nonce-run-le a c calls (settle s (present call s)),
)

-- Once a call is accepted, the same call is refused with a nonce mismatch after any later history
-- of calls, whoever makes them and whether they succeed or panic.
pub no_replay :
    (call : Call) (s s' : Nonces) (calls : List Call)
    → present call s ≡ ok (tt, s')
    → present call (run calls s') ≡ err nonce_mismatch
no_replay call s s' calls h =
    let (accepted, raised) =
      get_nonce-verify call.actor call.actor call.channel call.channel call.nonce s s' h in
    (verify_and_increment_nonce-cases call.actor call.channel call.nonce (run calls s')).0
      (ground (arith, get_nonce-run-le call.actor call.channel calls s'))

-- What a call does to the nonce of one stream, if it is a call of that stream: the next nonce for the
-- current one below the largest, and nothing otherwise.
abbrev pub follow_one : Address → ℕ → Call → ℕ → ℕ
follow_one a c call n =
    if (call.actor == a) && (call.channel == c) && (call.nonce == n) && ltb n u64_max
    then n + 1
    else n

unfoldable pub follow : Address → ℕ → List Call → ℕ → ℕ
follow a c [] n = n
follow a c (call ∷ calls) n = follow a c calls (follow_one a c call n)

get_nonce-settle-follow_one :
    (a : Address) (c : ℕ) (call : Call) (s : Nonces)
    → get_nonce a c (settle s (present call s)) ≡ follow_one a c call (get_nonce a c s)
unfolding verify_and_increment_nonce get_nonce set_nonce
get_nonce-settle-follow_one a c call s =
    elim (Bool-cases (call.nonce == get_nonce call.actor call.channel s)) [
      | inr wrong ↦ ground (arith, wrong)
      | inl right ↦ elim (Bool-cases (ltb (get_nonce call.actor call.channel s) u64_max)) [
        | inr full ↦ ground (arith, right, full)
        | inl room ↦ ground (arith, right, room)
      ]
    ]

-- Over every history of nonce-protected calls, whether they succeed or panic, the nonce of each stream
-- is what its own calls alone make of it, one after the other: a call of another actor or another
-- channel has no part in it.
pub get_nonce-run :
    (a : Address) (c : ℕ) (calls : List Call) (s : Nonces)
    → get_nonce a c (run calls s) ≡ follow a c calls (get_nonce a c s)
unfolding run follow
get_nonce-run a c [] s = refl
get_nonce-run a c (call ∷ calls) s =
    get_nonce-run a c calls (settle s (present call s))
    ∙ ap (follow a c calls) (get_nonce-settle-follow_one a c call s)
