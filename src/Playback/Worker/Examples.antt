-- ===== src/Playback/Worker/Examples.antt =====
-- A track of six bytes, read over HTTP, and frames at the limits of a queue.
use discord_voice_service.Common.{
  ℕ, ◌≤◌, ◌≡◌, refl, subst, inr, ◌⊎◌, ◌∙◌, true, false, Option, none, some, [], ◌∷◌, ◌++◌, String,
  length, drop, ok, arith, append-nil,
}
use discord_voice_service.Common.Bytes.{Bytes}
use discord_voice_service.Common.Words.{u64_max}
use discord_voice_service.Playback.Error.{http}
use discord_voice_service.Playback.OpusFrame.{OpusFrame}
use discord_voice_service.Playback.OpusQueue.{OpusFrameQueue, can_fit_frame, with_resource_limits}
use discord_voice_service.Playback.Demux.{
  WebmParser, default_demux, Block, tag, track_entry, track_number, codec_id, track_type,
  timestamp_tag, simple_block, pos,
}
use discord_voice_service.Playback.Normalizer.{Codec}
use discord_voice_service.Playback.HttpRange.{HttpResponse, received, failed}
use discord_voice_service.Playback.HttpStream.{Http, HttpOpusStream, new_stream, offset, read_chunk}
use discord_voice_service.Playback.HttpStream.Pieces.{
  Serves, Ahead, Delivered, IsPrefix, bytes_of, first_of,
}
use discord_voice_service.Playback.HttpStream.Delivery.{read_chunk-Delivered}
use discord_voice_service.Playback.HttpStream.Ending.{Returns, read_chunk-Returns}
use discord_voice_service.Playback.Source.{PlaybackSource, ResolvedPlaybackSource}
use discord_voice_service.Playback.Recovery.{Resolver, new_recovery, read_stream_chunk}
use discord_voice_service.Playback.Recovery.Retrying.{Arrives, read_stream_chunk-Arrives}
use discord_voice_service.Playback.Opening.{recover}
use discord_voice_service.Playback.Normalizer.Total.{IsTotal}
use discord_voice_service.Playback.Opening.Returning.{IsRecovered, recover-IsFound}
use discord_voice_service.Playback.Worker.{PlaybackWorker, Filling, new_worker, enqueue_frames}
use discord_voice_service.Playback.Worker.Ordering.{Conserves, enqueue_frames-Conserves}
use discord_voice_service.Playback.Worker.Returning.{Comes, fill_loop-Comes}

abbrev track_bytes : Bytes
track_bytes = 1 ∷ 2 ∷ 3 ∷ 4 ∷ 5 ∷ 6 ∷ []

abbrev response_for : Option ℕ → HttpResponse
response_for start = record {
  status = 206;
  content_length = none;
  content_range = none;
  body = received (drop (first_of start) track_bytes) ∷ failed (http none) ∷ [];
}

-- Each connection breaks after the bytes that are there.
abbrev server : Http (Unit {0})
server = record { send = λ n url start. (some (inr (response_for start)), n) }

server-Serves : Serves track_bytes server
server-Serves n url start r given fine answers =
    let same : response_for start ≡ r = cc in
    subst (λ (r : HttpResponse). IsPrefix (bytes_of r.body) (drop (first_of start) track_bytes))
      same ([], append-nil (drop (first_of start) track_bytes ++ []) ∙ append-nil _)

small : length track_bytes ≤ u64_max
small = omega arith

abbrev stream : HttpOpusStream
stream = new_stream "https://example.org/track"

stream-Ahead : Ahead track_bytes stream
unfolding new_stream
stream-Ahead = (track_bytes, refl)

read_chunk-Delivered_example : Delivered track_bytes (offset stream) (read_chunk server stream tt)
read_chunk-Delivered_example =
    read_chunk-Delivered track_bytes small server server-Serves stream tt stream-Ahead

read_chunk-Returns_example : Returns (read_chunk server stream tt)
read_chunk-Returns_example = read_chunk-Returns server stream tt

abbrev found : ResolvedPlaybackSource
found = record {
  selected_itag = 250;
  playable_url = "https://example.org/track";
  approx_duration_ms = none;
}

abbrev resolver : Resolver (Unit {0})
resolver = record { resolve_playback_source = λ n video_id. (inr found, n) }

abbrev source : PlaybackSource
source = record { resolved = found; stream = stream; demux = default_demux; pending_packets = [] }

read_stream_chunk-Arrives_example :
    Arrives track_bytes
      (offset stream)
      (read_stream_chunk server resolver (some "track") (new_recovery, source, tt))
read_stream_chunk-Arrives_example =
    read_stream_chunk-Arrives track_bytes small server server-Serves resolver (some "track")
      new_recovery source tt stream-Ahead

abbrev block_of : Bytes → String ⊎ Block
block_of bytes = inr (record { track = 1; timestamp = pos 0; frame_data = inr (bytes ∷ []) })

-- A parser that finds an Opus track in the bytes, and a block 100 ms from its start.
abbrev parser : WebmParser
parser = record {
  iterate = λ bytes.
      tag (track_entry (track_number 1 ∷ codec_id "A_OPUS" ∷ track_type 2 ∷ []))
      ∷ tag (timestamp_tag 100)
      ∷ tag (simple_block (0xfc ∷ 7 ∷ []))
      ∷ [];
  read_simple_block = block_of;
  read_block = block_of;
}

recover-IsFound_example : IsRecovered (recover server parser 7 resolver "track" 960 new_recovery tt)
recover-IsFound_example =
    recover-IsFound track_bytes small server server-Serves parser 960 7 (omega arith) resolver
      "track" new_recovery tt

abbrev codec : Codec ℕ ℕ ℕ
codec = record {
  new_decoder = λ channels. ok channels;
  decode = λ decoder packet frame_samples buffer. (ok (frame_samples, buffer), decoder);
  new_encoder = ok 0;
  encode = λ encoder pcm samples. (ok (0xfc ∷ []), encoder);
  zero_value = 0;
  unexpected_count = λ count expected. "decoded opus packet returned other samples";
}

codec-IsTotal : IsTotal codec
codec-IsTotal = record {
  new_decoder = λ channels. tt;
  decode = λ decoder packet samples pcm. tt;
  new_encoder = tt;
  encode = λ encoder pcm samples. tt;
}

abbrev queue : OpusFrameQueue
queue = with_resource_limits 100 100 5_000

abbrev worker : PlaybackWorker ℕ ℕ ℕ
worker = record (new_worker codec) { current_video_id = some "track" }

abbrev filling : Filling ℕ ℕ ℕ (Unit {0})
filling = record { worker = worker; source = source; queue = queue; network = tt }

stream_offset : offset stream ≤ length track_bytes
unfolding new_stream
stream_offset = omega arith

fill_loop-Comes_example :
    Comes codec codec-IsTotal server resolver parser track_bytes small server-Serves
      (some "track")
      3_840
      filling
fill_loop-Comes_example =
    fill_loop-Comes codec codec-IsTotal server resolver parser track_bytes small server-Serves
      (some "track") 3_840 filling (stream-Ahead, stream_offset)

-- A queue of four bytes at most, a frame of five and one of three.
abbrev narrow : OpusFrameQueue
narrow = record {
  capacity = 10;
  max_bytes = 4;
  max_duration_samples = 48_000;
  duration_samples = 0;
  bytes = 0;
  inner = [];
}

abbrev frame : Bytes → OpusFrame
frame payload = record {
  payload = payload;
  duration_ms = 20;
  duration_samples = 960;
  source_position_ms = 0;
  source_position_samples = 0;
  source_byte_position = none;
  epoch = 0;
}

abbrev long : OpusFrame
long = frame (1 ∷ 2 ∷ 3 ∷ 4 ∷ 5 ∷ [])

abbrev short : OpusFrame
short = frame (6 ∷ 7 ∷ 8 ∷ [])

long_unfit : can_fit_frame narrow long ≡ false
unfolding can_fit_frame
long_unfit = refl

short_fits : can_fit_frame narrow short ≡ true
unfolding can_fit_frame
short_fits = refl

enqueue_frames-Conserves_example :
    Conserves narrow [] (long ∷ short ∷ []) (enqueue_frames (long ∷ short ∷ []) [] narrow)
enqueue_frames-Conserves_example = enqueue_frames-Conserves (long ∷ short ∷ []) [] narrow
