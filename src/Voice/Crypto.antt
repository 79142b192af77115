-- ===== src/Voice/Crypto.antt =====
-- crates/discord-voice-service-voice/src/crypto.rs: the choice of an encryption mode.
pub mod Choice
use discord_voice_service.Common.{
  String, Bool, true, false, ◌||◌, Option, none, some, List, [], ◌∷◌, if◌then◌else◌, str_eq, Result,
  ok, err, panic,
}
use discord_voice_service.Common.Maybe.{option_map}
use discord_voice_service.Voice.Error.{VoiceError, unsupported_encryption_mode}

abbrev pub required_mode : String
required_mode = "aead_xchacha20_poly1305_rtpsize"

abbrev pub preferred_mode : String
preferred_mode = "aead_aes256_gcm_rtpsize"

pub data EncryptionMode : Type 0 where
  aead_aes256_gcm_rtpsize aead_xchacha20_poly1305_rtpsize : EncryptionMode

unfoldable pub as_str : EncryptionMode → String
as_str aead_aes256_gcm_rtpsize = preferred_mode
as_str aead_xchacha20_poly1305_rtpsize = required_mode

unfoldable pub from_str : String → Result VoiceError EncryptionMode
from_str value =
    if str_eq value preferred_mode
    then ok aead_aes256_gcm_rtpsize
    else if str_eq value required_mode
    then ok aead_xchacha20_poly1305_rtpsize
    else err unsupported_encryption_mode

-- `modes.iter().any(|mode| mode == name)`
abbrev pub any_is : String → List String → Bool
any_is name [] = false
any_is name (mode ∷ modes) = str_eq mode name || any_is name modes

unfoldable pub choose_mode : List String → Result VoiceError EncryptionMode
choose_mode modes =
    if any_is preferred_mode modes
    then ok aead_aes256_gcm_rtpsize
    else if any_is required_mode modes
    then ok aead_xchacha20_poly1305_rtpsize
    else err unsupported_encryption_mode

abbrev ok_value {ℓ κ} : {E : Type ℓ} {A : Type κ} → Result E A → Option A
ok_value (ok a) = some a
ok_value (err e) = none
ok_value panic = none

unfoldable pub pick_mode : List String → Option String
unfolding choose_mode as_str
pick_mode modes = option_map as_str (ok_value (choose_mode modes))
