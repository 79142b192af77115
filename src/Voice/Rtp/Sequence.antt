-- ===== src/Voice/Rtp/Sequence.antt =====
-- rtp.rs: the sequence state over a run of packets.
use discord_voice_service.Common.{
  ℕ, ◌+◌, ◌%◌, ◌^◌, ◌≤◌, ◌<◌, ◌≡◌, ◌≢◌, List, [], ◌∷◌, length, arith,
}
use discord_voice_service.Common.Words.{IsU16, IsU32}
use discord_voice_service.Voice.Rtp.{RtpSequenceState, advance_by_samples}

abbrev pub sum : List ℕ → ℕ
sum [] = 0
sum (x ∷ xs) = x + sum xs

-- The state after a packet for each of the durations.
abbrev pub advance_all : RtpSequenceState → List ℕ → RtpSequenceState
advance_all s [] = s
advance_all s (d ∷ ds) = advance_all (advance_by_samples s d).1 ds

-- After a run of packets the sequence number counts them modulo 2 ^ 16, and the timestamp counts
-- their samples modulo 2 ^ 32, from any state whose fields are in range.
pub advance_all_lem :
    (ds : List ℕ) (s : RtpSequenceState)
    → IsU16 s.sequence
    → IsU32 s.timestamp
    → ((advance_all s ds).sequence ≡ (s.sequence + length ds) % 2 ^ 16)
      × ((advance_all s ds).timestamp ≡ (s.timestamp + sum ds) % 2 ^ 32)
unfolding advance_by_samples
advance_all_lem [] s hs ht = omega arith
advance_all_lem (d ∷ ds) s hs ht =
    omega (arith, advance_all_lem ds (advance_by_samples s d).1 (omega arith) (omega arith))

-- Fewer than 2 ^ 16 packets after one, no packet has its sequence number again.
pub advance_all-sequence_ne :
    (ds : List ℕ) (s : RtpSequenceState)
    → IsU16 s.sequence
    → IsU32 s.timestamp
    → 1 ≤ length ds
    → length ds < 2 ^ 16
    → (advance_all s ds).sequence ≢ s.sequence
advance_all-sequence_ne ds s hs ht h1 h2 = omega (arith, advance_all_lem ds s hs ht)
