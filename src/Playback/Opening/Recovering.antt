-- ===== src/Playback/Opening/Recovering.antt =====
-- recovery.rs: a track that `recover` gives back, by whichever way it was opened.
