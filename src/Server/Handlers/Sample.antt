-- ===== src/Server/Handlers/Sample.antt =====
-- The message that `new_sample` of AAServer/src/VideoChannelHandler.cpp makes of an encoded sample.
use aacs.Prelude.{ℕ, ◌-◌, ◌/◌, ◌^◌, List, [], ◌++◌, ◌==◌, if◌then◌else◌}
use aacs.Wire.Codes.{media_code, media_with_timestamp_indication, media_indication}
use aacs.Wire.Bytes.{push_back_int16, push_back_int64}

-- `pts == -1` of a 64-bit time without sign, in nanoseconds.
abbrev pub no_timestamp : ℕ
no_timestamp = 2 ^ 64 - 1

unfoldable pub sample_message : ℕ → List ℕ → List ℕ
sample_message pts bytes =
    (if pts == no_timestamp
      then push_back_int16 [] (media_code media_indication)
      else push_back_int64 (push_back_int16 [] (media_code media_with_timestamp_indication))
          (pts / 1000))
    ++ bytes
