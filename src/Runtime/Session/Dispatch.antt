-- ===== src/Runtime/Session/Dispatch.antt =====
-- supervisor.rs and `handle_command`: which function a command of a client runs.
use discord_voice_service.Common.{ℕ, String}
use discord_voice_service.Runtime.Session.Store.{VoiceContext}
use discord_voice_service.Runtime.Session.Surroundings.{Surroundings, Command}
use discord_voice_service.Runtime.Session.Commands
use discord_voice_service.Runtime.Session.Renewal

pub data SessionCommand : Type 0 where
  join_voice : VoiceContext → SessionCommand
  update_voice_context : VoiceContext → SessionCommand
  play : (video_id : String) → SessionCommand
  pause : SessionCommand
  resume : SessionCommand
  stop : SessionCommand
  leave_voice : SessionCommand

unfoldable pub handle_command :
    Surroundings → (ℕ → Command (Unit {0})) → SessionCommand → Command (Unit {0})
handle_command env perform (join_voice context) = Commands.join_voice env context
handle_command env perform (update_voice_context context) = Renewal.update_voice_context env context
handle_command env perform (play video_id) = Renewal.play env perform video_id
handle_command env perform pause = Commands.pause env
handle_command env perform resume = Commands.resume env
handle_command env perform stop = Commands.stop env
handle_command env perform leave_voice = Commands.leave_voice env
