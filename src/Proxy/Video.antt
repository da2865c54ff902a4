-- ===== src/Proxy/Video.antt =====
-- Video frames: what `new_sample` of AAServer/src/VideoChannelHandler.cpp sends, and what
-- `handleMessageFromMobile` of AAClient/src/VideoChannelHandler.cpp makes of such a message.
use aacs.Prelude.{
  ℕ, ◌+◌, ◌-◌, ◌*◌, ◌/◌, ◌%◌, ◌^◌, ◌≤◌, ◌<◌, ◌≡◌, refl, ap, List, [], ◌∷◌, ◌++◌, true, drop, length,
  arith,
}
use aacs.Proto.{Proto}
use aacs.Wire.Bytes.{front16, push_back_int16, push_back_int64, value, bytes_to_uint64}
use aacs.Wire.Bytes.RoundTrip.{bytes_to_uint64-push_back_int64}
use aacs.Server.Handlers.Sample.{sample_message, no_timestamp}
use aacs.Client.Handlers.{
  VideoState, video_handler, handled, push_buffer, ack, sub64, start_after, handle_from_mobile,
}

timed_sample :
    (pts : ℕ) (bytes : List ℕ)
    → pts < no_timestamp
    → sample_message pts bytes ≡ push_back_int64 (0 ∷ 0 ∷ []) (pts / 1000) ++ bytes
unfolding sample_message push_back_int16
timed_sample pts bytes h = ground arith

stamped_type : (n : ℕ) (bytes : List ℕ) → front16 (push_back_int64 (0 ∷ 0 ∷ []) n ++ bytes) ≡ 0
unfolding push_back_int64 front16
stamped_type n bytes = refl

stamped_body : (n : ℕ) (bytes : List ℕ) → drop 10 (push_back_int64 (0 ∷ 0 ∷ []) n ++ bytes) ≡ bytes
unfolding push_back_int64
stamped_body n bytes = refl

-- A sample with a time in nanoseconds, played by a handler that has its pipeline, is pushed with
-- its content unchanged and acknowledged. Its time counts from the start that the handler keeps, in
-- whole microseconds.
sample_played :
    (proto : Proto) (v : VideoState) (channel flags pts : ℕ) (bytes : List ℕ)
    → pts < no_timestamp
    → length bytes < 2 ^ 32
    → v.has_source ≡ true
    → handle_from_mobile proto (video_handler v) channel flags (sample_message pts bytes) ≡ record {
      ending = handled true;
      handler =
          video_handler (record v { start_timestamp = start_after v.start_timestamp (pts / 1000) });
      emitted =
          push_buffer
            (sub64 (pts / 1000) (start_after v.start_timestamp (pts / 1000)) * 1000 % 2 ^ 64)
            bytes
          ∷ ack v.video_id
          ∷ [];
    }
unfolding handle_from_mobile
sample_played proto v channel flags pts bytes h small src = rw (timed_sample pts bytes h) (
    let read : bytes_to_uint64 (push_back_int64 (0 ∷ 0 ∷ []) (pts / 1000) ++ bytes) 2
        ≡ value (pts / 1000) =
      bytes_to_uint64-push_back_int64 (0 ∷ 0 ∷ []) bytes (pts / 1000) (omega arith) (omega arith) in
    rw (stamped_type (pts / 1000) bytes, read, stamped_body (pts / 1000) bytes, src) refl)

started_at : (t0 : ℕ) → 100000 < t0 → t0 < 2 ^ 60 → start_after 0 t0 ≡ t0 - 100000
unfolding start_after
started_at t0 lo hi = ground arith

kept_start : (start t : ℕ) → 0 < start → start_after start t ≡ start
unfolding start_after
kept_start start t h = ground arith

local_time :
    (t0 t : ℕ)
    → 100000 < t0
    → t0 ≤ t
    → t < 2 ^ 53
    → sub64 t (t0 - 100000) * 1000 % 2 ^ 64 ≡ (t - t0 + 100000) * 1000
local_time t0 t lo le hi = omega arith

-- The first sample of a stream, taken at 100.001 ms or later, is played at 100 ms, and a later one
-- so much after it as it was taken later, in whole microseconds. The handler has its pipeline, no
-- start is set before, the times are below 2^60 ns, and no sample reaches 2^32 bytes.
pub stream_timing :
    (proto : Proto) (v : VideoState) (channel flags pts0 pts : ℕ) (bytes0 bytes : List ℕ)
    → v.has_source ≡ true
    → v.start_timestamp ≡ 0
    → 100001000 ≤ pts0
    → pts0 ≤ pts
    → pts < 2 ^ 60
    → length bytes0 < 2 ^ 32
    → length bytes < 2 ^ 32
    → ((handle_from_mobile proto
          (video_handler v)
          channel
          flags
          (sample_message pts0 bytes0)).emitted
        ≡ push_buffer 100000000 bytes0 ∷ ack v.video_id ∷ [])
      × ((handle_from_mobile proto
            (handle_from_mobile proto
              (video_handler v)
              channel
              flags
              (sample_message pts0 bytes0)).handler
            channel
            flags
            (sample_message pts bytes)).emitted
          ≡ push_buffer ((pts / 1000 - pts0 / 1000 + 100000) * 1000) bytes ∷ ack v.video_id ∷ [])
stream_timing proto v channel flags pts0 pts bytes0 bytes src start lo le hi small0 small =
    let t0 = pts0 / 1000 in
    let t = pts / 1000 in
    let v1 : VideoState = record v { start_timestamp = t0 - 100000 } in
    let first = sample_played proto v channel flags pts0 bytes0 (omega arith) small0 src in
    let later = sample_played proto v1 channel flags pts bytes (omega arith) small src in
    rw (first, start, started_at t0 (omega arith) (omega arith))
      (
        ap (λ n. push_buffer n bytes0 ∷ ack v.video_id ∷ []) (omega arith),
        rw
            (
              later,
              kept_start (t0 - 100000) t (omega arith),
              local_time t0 t (omega arith) (omega arith) (omega arith),
            )
            refl,
      )
