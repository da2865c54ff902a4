-- ===== src/Server/Pump/Frames.antt =====
-- The pump on the endpoint that the head unit writes to, with `handleMessage` as its writer.
pub mod Any
use aacs.Server.Pump.Progress.{write_loop_moved, write_loop_raised, write_loop_crashes}
use aacs.Prelude.{
  Bool, true, ℕ, zero, suc, ◌+◌, ◌-◌, ◌/◌, ◌%◌, ◌^◌, ◌≤◌, ◌<◌, ◌≡◌, refl, ◌∙◌, false, List, [], ◌∷◌,
  ◌++◌, All, arith, drop, length, append_assoc, length-append, drop-length_append,
  take-length_append, le→ltb, append-nil,
}
use aacs.Tls.{Tls, Handshake}
use aacs.Proto.{Proto}
use aacs.CheckError.{count, check_error}
use aacs.Wire.Bytes.{front16}
use aacs.Wire.Bytes.RoundTrip.{join16-sum}
use aacs.Server.Control.Signals.{
  Server, Result, Error, null_dereference, out_of_bounds, ok, threw, stuck,
}
use aacs.Server.Control.Dispatch.{handle_message, open_frame, open_frame_count}
use aacs.Server.Pump.{
  Call, returned, raised, crashes, crashed, RoundEnd, next_round, ended_by_error, write_loop,
  pump_round,
}

-- A frame as the head unit sends it in one piece: four bytes of header, and the body.
pub record WireFrame : Type 0 where
  pub channel : ℕ
  pub flags : ℕ
  pub body : List ℕ

pub bytes_of : WireFrame → List ℕ
bytes_of f = f.channel ∷ f.flags ∷ length f.body / 256 ∷ length f.body % 256 ∷ f.body

abbrev pub all_bytes : List WireFrame → List ℕ
all_bytes [] = []
all_bytes (f ∷ fs) = bytes_of f ++ all_bytes fs

abbrev pub IsShort : WireFrame → Type 0
IsShort f = length f.body < 2 ^ 16

-- Where the source dereferences a null pointer, or reads beyond a table or an empty body, it is no
-- exception that it throws.
unfoldable pub is_undefined : Error → Bool
is_undefined null_dereference = true
is_undefined out_of_bounds = true
is_undefined other = false

abbrev pub call_after : Bool → Call
call_after true = crashes
call_after false = raised

abbrev pub end_after : Bool → RoundEnd
end_after true = crashed
end_after false = ended_by_error

module _ (tls : Tls) (api : Handshake tls) (proto : Proto) where
  call_of : Result ℕ × Server tls → Call × Server tls
  unfolding is_undefined
  call_of (ok n, s1) = (returned (count n), s1)
  call_of (threw e, s1) = (call_after (is_undefined e), s1)
  call_of (stuck, s1) = (raised, s1)

  -- `writeFun` of that thread. `stuck` is the model's own, and counts as an exception here.
  pub usb_writer : List ℕ → ℕ → Server tls → Call × Server tls
  unfolding call_of
  usb_writer buf len s = call_of (handle_message tls api proto buf len s)

  -- The frames handled one after the other, each by a call of its own, up to an exception or a crash.
  then_frames : (Server tls → RoundEnd × Server tls) → Result ℕ × Server tls → RoundEnd × Server tls
  unfolding is_undefined
  then_frames next (ok n, s1) = next s1
  then_frames next (threw e, s1) = (end_after (is_undefined e), s1)
  then_frames next (stuck, s1) = (ended_by_error, s1)

  pub handle_frames : List WireFrame → Server tls → RoundEnd × Server tls
  unfolding then_frames
  handle_frames [] s = (next_round, s)
  handle_frames (f ∷ fs) s =
      then_frames (λ s1. handle_frames fs s1)
        (handle_message tls api proto (bytes_of f) (length (bytes_of f)) s)

  length_of_frame :
      (f : WireFrame) (rest : List ℕ)
      → IsShort f
      → front16 (drop 2 (bytes_of f ++ rest)) ≡ length f.body
  unfolding bytes_of front16
  length_of_frame f rest h =
      join16-sum (length f.body / 256) (length f.body % 256) (omega arith) ∙ omega arith

  -- What stands behind the frame in the buffer does not matter.
  handle_message-bytes_of :
      (f : WireFrame) (rest : List ℕ) (n : ℕ) (s : Server tls)
      → IsShort f
      → 4 + length f.body ≤ n
      → handle_message tls api proto (bytes_of f ++ rest) n s
        ≡ open_frame tls api proto f.channel f.flags f.body (length f.body) s
  unfolding handle_message bytes_of
  handle_message-bytes_of f rest n s h le =
      rw (length_of_frame f rest h, le→ltb n (4 + length f.body) le, take-length_append f.body rest)
        refl

  handle_frames-cons :
      (f : WireFrame) (fs : List WireFrame) (s : Server tls)
      → IsShort f
      → handle_frames (f ∷ fs) s
        ≡ then_frames
            (λ s1. handle_frames fs s1)
            (open_frame tls api proto f.channel f.flags f.body (length f.body) s)
  unfolding handle_frames
  handle_frames-cons f fs s h =
      let whole =
        handle_message-bytes_of f [] (length (bytes_of f)) s h (unfold bytes_of in omega arith) in
      rw (rw (append-nil (bytes_of f)) at whole) refl

  length-bytes_of : (f : WireFrame) → length (bytes_of f) ≡ 4 + length f.body
  unfolding bytes_of
  length-bytes_of f = omega arith

  usb_writer-bytes_of :
      (f : WireFrame) (front rest : List ℕ) (n : ℕ) (s : Server tls)
      → IsShort f
      → 4 + length f.body ≤ n
      → usb_writer (drop (length front) (front ++ (bytes_of f ++ rest))) n s
        ≡ call_of (open_frame tls api proto f.channel f.flags f.body (length f.body) s)
  unfolding usb_writer
  usb_writer-bytes_of f front rest n s h le =
      rw (drop-length_append front (bytes_of f ++ rest), handle_message-bytes_of f rest n s h le)
        refl

  -- A call that throws or crashes is the last one.
  pub stops_after :
      (fuel start len : ℕ) (buffer : List ℕ) (is_crash : Bool) (s s1 : Server tls)
      → usb_writer (drop start buffer) len s ≡ (call_after is_crash, s1)
      → 0 < len
      → write_loop usb_writer (λ _. false) (suc fuel) buffer start len s ≡ (end_after is_crash, s1)
  stops_after fuel start len buffer true s s1 e pos =
      write_loop_crashes usb_writer fuel start len buffer s s1 e pos
  stops_after fuel start len buffer false s s1 e pos =
      write_loop_raised usb_writer fuel start len buffer s s1 e pos

  -- The loop at a frame, by how the frame is handled, if it goes on as `handle_frames` does.
  frame_step :
      (f : WireFrame) (fs : List WireFrame) (front rest : List ℕ) (fuel n : ℕ) (s : Server tls)
      (r : Result ℕ × Server tls)
      → open_frame tls api proto f.channel f.flags f.body (length f.body) s ≡ r
      → IsShort f
      → 4 + length f.body ≤ n
      → ((s1 : Server tls)
          → write_loop usb_writer
              (λ _. false)
              fuel
              (front ++ (bytes_of f ++ rest))
              (length front + (4 + length f.body))
              (n - (4 + length f.body))
              s1
            ≡ handle_frames fs s1)
      → write_loop usb_writer
          (λ _. false)
          (suc fuel)
          (front ++ (bytes_of f ++ rest))
          (length front)
          n
          s
        ≡ then_frames (λ s1. handle_frames fs s1) r
  unfolding then_frames
  frame_step f fs front rest fuel n s (ok k, s1) e h le next =
      let size : 4 + length f.body ≡ suc (3 + length f.body) = omega arith in
      let k_size : k ≡ suc (3 + length f.body) =
        omega (
          arith,
          open_frame_count tls api proto f.channel f.flags (length f.body) k f.body s s1 e,
        ) in
      let call : usb_writer (drop (length front) (front ++ (bytes_of f ++ rest))) n s
          ≡ (returned (count (suc (3 + length f.body))), s1) =
        usb_writer-bytes_of f front rest n s h le ∙ rw e (rw k_size (unfold call_of in refl)) in
      write_loop_moved usb_writer fuel (3 + length f.body) (length front) n _ s s1 call
        (omega arith)
      ∙ (rw size at (next s1))
  frame_step f fs front rest fuel n s (threw x, s1) e h le next =
      stops_after fuel (length front) n _ (is_undefined x) s s1
        (usb_writer-bytes_of f front rest n s h le ∙ rw e (unfold call_of in refl)) (omega arith)
  frame_step f fs front rest fuel n s (stuck, s1) e h le next =
      write_loop_raised usb_writer fuel (length front) n _ s s1
        (usb_writer-bytes_of f front rest n s h le ∙ rw e (unfold call_of in refl)) (omega arith)

  -- The loop on the frames that are left, behind those it has passed.
  frames_loop :
      (fs : List WireFrame) (front stale : List ℕ) (fuel : ℕ) (s : Server tls)
      → All IsShort fs
      → length fs ≤ fuel
      → write_loop usb_writer
          (λ _. false)
          fuel
          (front ++ (all_bytes fs ++ stale))
          (length front)
          (length (all_bytes fs))
          s
        ≡ handle_frames fs s
  frames_loop [] front stale fuel s short h = unfold write_loop handle_frames in refl
  frames_loop (f ∷ fs) front stale zero s short h = absurd (omega arith)
  frames_loop (f ∷ fs) front stale (suc fuel) s (short, shorts) h =
      rw (handle_frames-cons f fs s short, append_assoc (bytes_of f) (all_bytes fs) stale)
        (frame_step f fs front (all_bytes fs ++ stale) fuel (length (all_bytes (f ∷ fs))) s _ refl
          short (omega (arith, length-append (bytes_of f) (all_bytes fs), length-bytes_of f))
          (λ s1.
            let passed : length front + (4 + length f.body) ≡ length (front ++ bytes_of f) =
              omega (arith, length-append front (bytes_of f), length-bytes_of f) in
            let left : length (bytes_of f ++ all_bytes fs) - (4 + length f.body)
                ≡ length (all_bytes fs) =
              omega (arith, length-append (bytes_of f) (all_bytes fs), length-bytes_of f) in
            rw (← append_assoc front (bytes_of f) (all_bytes fs ++ stale), passed, left)
              (frames_loop fs (front ++ bytes_of f) stale fuel s1 shorts (omega arith))))

  -- One read of the endpoint may hold any number of whole frames: the pump handles each of them
  -- once, in order, up to the first exception or crash, exactly as if each had been read alone, and what
  -- older reads left in the buffer behind them plays no part. A round for each frame is enough. No frame's body reaches 2^16 bytes,
  -- at least one frame was read, and no other thread ends the communication meanwhile.
  pub pump_round-frames :
      (f : WireFrame) (fs : List WireFrame) (stale : List ℕ) (fuel : ℕ) (s : Server tls)
      → All IsShort (f ∷ fs)
      → length (f ∷ fs) ≤ fuel
      → pump_round usb_writer
          (λ _. false)
          fuel
          (returned (count (length (all_bytes (f ∷ fs)))))
          (all_bytes (f ∷ fs) ++ stale)
          s
        ≡ handle_frames (f ∷ fs) s
  unfolding pump_round check_error
  pump_round-frames f fs stale fuel s short h =
      let size : length (all_bytes (f ∷ fs)) ≡ suc (length (all_bytes (f ∷ fs)) - 1) =
        omega (arith, length-append (bytes_of f) (all_bytes fs), length-bytes_of f) in
      rw size (rw (← size) (frames_loop (f ∷ fs) [] stale fuel s short h))
