-- ===== src/Voice/Wire.antt =====
-- crates/discord-voice-service-voice/src/dave/wire.rs: the framing of a commit and a welcome.
pub mod RoundTrip
use discord_voice_service.Common.{
  ℕ, ◌%◌, ◌^◌, ◌<◌, Option, not, ◌==◌, ltb, List, [], ◌∷◌, ◌++◌, length, take, drop, Result, ok,
  err, panic, ◌>>=◌, ◌>>◌, fail_if, if◌then◌else◌, index,
}
use discord_voice_service.Common.Maybe.{unwrap_or}
use discord_voice_service.Common.Bytes.{Bytes, be_bytes32, from_be32}

-- The one error of `DaveError` that the framing reports.
pub data WireError : Type 0 where
  malformed_commit_welcome : WireError

-- `len() as u32` keeps the lower 32 bits.
unfoldable pub pack_commit_welcome : Bytes → Option Bytes → Bytes
pack_commit_welcome commit welcome =
    let w = unwrap_or welcome [] in
    be_bytes32 (length commit % 2 ^ 32) ++ (commit ++ (be_bytes32 (length w % 2 ^ 32) ++ w))

unfoldable pub take_exact : Bytes → ℕ → Result WireError (Bytes × Bytes)
take_exact input len =
    if ltb (length input) len
    then err malformed_commit_welcome
    else ok (take len input, drop len input)

unfoldable pub read_len_prefixed : Bytes → Result WireError (ℕ × Bytes)
unfolding take_exact
read_len_prefixed input = do
  (len, rest) ← take_exact input 4
  a ← index len 0
  b ← index len 1
  c ← index len 2
  d ← index len 3
  ok (from_be32 a b c d, rest)

unfoldable pub unpack_commit_welcome : Bytes → Result WireError (Bytes × Bytes)
unpack_commit_welcome commit_welcome = do
  (commit_len, rest) ← read_len_prefixed commit_welcome
  (commit, rest) ← take_exact rest commit_len
  (welcome_len, rest) ← read_len_prefixed rest
  (welcome, rest) ← take_exact rest welcome_len
  fail_if (not (length rest == 0)) malformed_commit_welcome
  ok (commit, welcome)
