-- ===== src/Voice/Crypto/Choice.antt =====
-- crypto.rs: which mode is chosen.
use discord_voice_service.Common.{
  String, ◌≡◌, refl, true, false, ◌↔◌, some, none, List, ok, arith, eq_iff,
}
use discord_voice_service.Voice.Crypto.{
  EncryptionMode, aead_aes256_gcm_rtpsize, aead_xchacha20_poly1305_rtpsize, preferred_mode,
  required_mode, as_str, from_str, any_is, pick_mode,
}

-- Reading back the name of a mode gives the mode.
pub from_str-as_str : (m : EncryptionMode) → from_str (as_str m) ≡ ok m
unfolding from_str as_str
from_str-as_str aead_aes256_gcm_rtpsize = refl
from_str-as_str aead_xchacha20_poly1305_rtpsize = refl

-- A text that is read as a mode is that mode's name.
pub as_str-from_str : (s : String) (m : EncryptionMode) → from_str s ≡ ok m → s ≡ as_str m
unfolding from_str as_str
as_str-from_str s aead_aes256_gcm_rtpsize e =
    ground (arith, eq_iff s preferred_mode, eq_iff s required_mode)
as_str-from_str s aead_xchacha20_poly1305_rtpsize e =
    ground (arith, eq_iff s preferred_mode, eq_iff s required_mode)

-- The name that is picked is one that was offered.
pub any_is-pick_mode :
    (modes : List String) (name : String) → pick_mode modes ≡ some name → any_is name modes ≡ true
unfolding pick_mode
any_is-pick_mode modes name e = ground arith

-- Nothing is picked exactly where neither name is offered.
pub pick_mode-eq-none_iff :
    (modes : List String)
    → (pick_mode modes ≡ none)
      ↔ ((any_is preferred_mode modes ≡ false) × (any_is required_mode modes ≡ false))
unfolding pick_mode
pick_mode-eq-none_iff modes = ground arith
