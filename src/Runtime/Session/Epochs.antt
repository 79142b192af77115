-- ===== src/Runtime/Session/Epochs.antt =====
-- A task of playback holds the epoch of its start: once playback is begun again or invalidated, its
-- sections do nothing.
use discord_voice_service.Common.{ℕ, ◌+◌, List, [], ◌∷◌}
use discord_voice_service.Runtime.Session.Interleaving.{Section}
use discord_voice_service.Runtime.Session.Interleaving

abbrev passes : Section → ℕ
passes Interleaving.playback_begun = 1
passes Interleaving.playback_invalidated = 1
passes _ = 0

-- How often playback is begun or invalidated.
abbrev pub epochs_passed : List Section → ℕ
epochs_passed [] = 0
epochs_passed (section ∷ sections) = passes section + epochs_passed sections
