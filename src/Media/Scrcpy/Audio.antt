-- ===== src/Media/Scrcpy/Audio.antt =====
-- The loop of the audio socket, on whatever blocks the server sends.
use yard.Prelude.{suc, ◌≡◌, refl, some, List, [], ◌∷◌, length}
use yard.Media.Scrcpy.{AudioPacket, on_audio, pump_audio, ScrcpyError, eof, session_in_audio}
use yard.Media.Scrcpy.Frames.{Sent, size, config, picture, read_frame-write}
use yard.Media.Scrcpy.Loop.{stream, AllFit, read_frame_empty}

-- What is to be heard of the blocks, and what ends it: the payloads with their times, the newest
-- first, up to a block that only a video stream has.
unfoldable pub heard : List AudioPacket → List Sent → List AudioPacket × ScrcpyError
heard ps [] = (ps, eof)
heard ps (size w h ∷ fs) = (ps, session_in_audio)
heard ps (config bs ∷ fs) = heard ps fs
heard ps (picture key t bs ∷ fs) = heard (record { data_ = bs; timestamp_us = t } ∷ ps) fs

-- The audio loop publishes just the packets that carry sound, with their times, and ends with the
-- stream or at a geometry block, whichever is first, where the blocks' numbers fit their fields.
pump_audio-stream :
    (fs : List Sent) (ps : List AudioPacket)
    → AllFit fs
    → pump_audio (suc (length fs)) (stream fs) ps ≡ some (heard ps fs)
unfolding pump_audio stream heard AllFit on_audio
pump_audio-stream [] ps h = rw (read_frame_empty, pump_audio) refl
pump_audio-stream (size w k ∷ fs) ps h =
    rw (read_frame-write (size w k) (stream fs) h.0, pump_audio) refl
pump_audio-stream (config bs ∷ fs) ps h =
    rw (read_frame-write (config bs) (stream fs) h.0, pump_audio) (pump_audio-stream fs ps h.1)
pump_audio-stream (picture key t bs ∷ fs) ps h =
    rw (read_frame-write (picture key t bs) (stream fs) h.0, pump_audio)
      (pump_audio-stream fs (record { data_ = bs; timestamp_us = t } ∷ ps) h.1)
