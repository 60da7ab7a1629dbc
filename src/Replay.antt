-- ===== src/Replay.antt =====
-- Nonce-based replay protection, contracts/common/src/replay_protection.rs. The state is the
-- storage under `ReplayKey::Nonce(actor, channel)`.
mod Laws
mod Streams
mod Examples
use veritasor_contracts.Prelude.{
  ℕ, ◌+◌, ◌&&◌, Bool, List, [], ◌∷◌, map, get_or, Option, Address, Action, ⊤, none, some, ensure,
  modify, gets, ◌>>=◌, ◌>>◌, ltb, leb, ◌==◌, if◌then◌else◌,
}
use veritasor_contracts.Prelude.Int.{u64_max}

pub data Error : Type 0 where
  nonce_mismatch nonce_overflow : Error

-- `ReplayKey::Nonce(actor, channel)`
abbrev pub Nonces : Type 0
Nonces = Address → ℕ → Option ℕ

abbrev pub channel_admin : ℕ
channel_admin = 1

abbrev pub channel_business : ℕ
channel_business = 2

abbrev pub channel_multisig : ℕ
channel_multisig = 3

abbrev pub channel_governance : ℕ
channel_governance = 4

abbrev pub channel_protocol : ℕ
channel_protocol = 5

abbrev pub channel_custom_start : ℕ
channel_custom_start = 256

unfoldable pub get_nonce : Address → ℕ → Nonces → ℕ
get_nonce actor channel s = get_or (s actor channel) 0

unfoldable pub peek_next_nonce : Address → ℕ → Nonces → ℕ
unfolding get_nonce
peek_next_nonce = get_nonce

abbrev pub is_key : Address → ℕ → Address → ℕ → Bool
is_key actor channel a c = actor == a && channel == c

unfoldable pub set_nonce : Address → ℕ → ℕ → Nonces → Nonces
set_nonce actor channel n s a c = if is_key actor channel a c then some n else s a c

unfoldable pub verify_and_increment_nonce : Address → ℕ → ℕ → Action Error Nonces ⊤
unfolding get_nonce set_nonce
verify_and_increment_nonce actor channel provided = do
  current ← gets (get_nonce actor channel)
  ensure (provided == current) nonce_mismatch
  ensure (ltb current u64_max) nonce_overflow
  modify (set_nonce actor channel (current + 1))

unfoldable pub get_nonces_for_channels : Address → List ℕ → Nonces → List ℕ
unfolding get_nonce
get_nonces_for_channels actor channels s = map (λ c. get_nonce actor c s) channels

unfoldable pub reset_nonce : Address → ℕ → Nonces → Nonces
reset_nonce actor channel s a c = if is_key actor channel a c then none else s a c

unfoldable pub reset_nonces_for_channels : Address → List ℕ → Nonces → Nonces
reset_nonces_for_channels actor [] s = s
reset_nonces_for_channels actor (channel ∷ channels) s =
    reset_nonces_for_channels actor channels (reset_nonce actor channel s)

unfoldable pub is_well_known_channel : ℕ → Bool
is_well_known_channel channel = leb channel_admin channel && leb channel channel_protocol

unfoldable pub is_custom_channel : ℕ → Bool
is_custom_channel channel = leb channel_custom_start channel
