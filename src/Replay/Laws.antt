-- ===== src/Replay/Laws.antt =====
-- One call of `verify_and_increment_nonce`, branch by branch, and the channel ranges.
use veritasor_contracts.Prelude.{
  ℕ, ◌+◌, ◌<◌, ◌≤◌, ◌≡◌, ◌≢◌, ◌↔◌, false, true, arith, Address, ok, err, List, [], ◌∷◌,
  if◌then◌else◌, contains, ◌==◌, ◌&&◌,
}
use veritasor_contracts.Prelude.Int.{u64_max}
use veritasor_contracts.Replay.{
  Nonces, nonce_mismatch, nonce_overflow, get_nonce, set_nonce, verify_and_increment_nonce,
  reset_nonce, reset_nonces_for_channels, is_key, is_well_known_channel, is_custom_channel,
}

pub get_nonce-set_nonce :
    (actor a : Address) (channel c n : ℕ) (s : Nonces)
    → get_nonce a c (set_nonce actor channel n s)
      ≡ (if is_key actor channel a c then n else get_nonce a c s)
unfolding get_nonce set_nonce
get_nonce-set_nonce actor a channel c n s = ground arith

pub verify_and_increment_nonce-cases :
    (actor : Address) (channel provided : ℕ) (s : Nonces)
    → let current = get_nonce actor channel s in
      (provided ≢ current
        → verify_and_increment_nonce actor channel provided s ≡ err nonce_mismatch)
      × (provided ≡ current
          → u64_max ≤ current
          → verify_and_increment_nonce actor channel provided s ≡ err nonce_overflow)
      × (provided ≡ current
          → current < u64_max
          → verify_and_increment_nonce actor channel provided s
            ≡ ok (tt, set_nonce actor channel (current + 1) s))
unfolding verify_and_increment_nonce
verify_and_increment_nonce-cases actor channel provided s =
    (λ h. ground arith, λ h k. ground arith, λ h k. ground arith)

-- A call that is accepted raises the nonce of its own stream by one and no other stream's.
pub get_nonce-verify :
    (actor a : Address) (channel c provided : ℕ) (s s' : Nonces)
    → verify_and_increment_nonce actor channel provided s ≡ ok (tt, s')
    → (provided ≡ get_nonce actor channel s)
      × (get_nonce a c s'
          ≡ (if is_key actor channel a c then get_nonce a c s + 1 else get_nonce a c s))
unfolding verify_and_increment_nonce
get_nonce-verify actor a channel c provided s s' h = ground arith

-- The well-known and the custom channels are disjoint, and leave 0 and 6 to 255 to neither.
pub channel_ranges :
    (channel : ℕ)
    → ((is_well_known_channel channel ≡ true) ↔ ((1 ≤ channel) × (channel ≤ 5)))
      × ((is_custom_channel channel ≡ true) ↔ (256 ≤ channel))
      × ((is_well_known_channel channel && is_custom_channel channel) ≡ false)
unfolding is_well_known_channel is_custom_channel
channel_ranges channel =
    ((λ h. ground arith, λ h. ground arith), (λ h. ground arith, λ h. ground arith), ground arith)

get_nonce-reset_nonce :
    (actor a : Address) (channel c : ℕ) (s : Nonces)
    → get_nonce a c (reset_nonce actor channel s)
      ≡ (if is_key actor channel a c then 0 else get_nonce a c s)
unfolding get_nonce reset_nonce
get_nonce-reset_nonce actor a channel c s = ground arith

-- A reset sets the listed streams of the actor back to 0 and leaves every other stream alone.
pub get_nonce-reset_nonces :
    (actor a : Address) (channels : List ℕ) (c : ℕ) (s : Nonces)
    → get_nonce a c (reset_nonces_for_channels actor channels s)
      ≡ (if a == actor && contains channels c then 0 else get_nonce a c s)
unfolding reset_nonces_for_channels
get_nonce-reset_nonces actor a [] c s = ground arith
get_nonce-reset_nonces actor a (channel ∷ channels) c s = ground (
  arith,
  get_nonce-reset_nonces actor a channels c (reset_nonce actor channel s),
  get_nonce-reset_nonce actor a channel c s,
)
