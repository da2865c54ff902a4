-- ===== src/GetEvents/Touches.antt =====
-- A touch on its way from the head unit through AAServer (`handleChannelMessage`, and the callback
-- of `gotMessage` in AAServer/main.cpp) to the X display.
use aacs.Prelude.{
  ap, if◌then◌else◌, ℕ, suc, ◌-◌, ◌≤◌, ◌≡◌, ◌≢◌, refl, ◌∙◌, false, List, [], ◌∷◌, ◌++◌, map, length,
  take, drop, some, take_all, length-drop, arith, append_assoc, append-nil, sym, true, ◌==◌, min,
  subst,
}
use aacs.Tls.{Tls}
use aacs.CheckError.{count, IoReturn}
use aacs.Frame.{Message}
use aacs.Wire.Codes.{input_code, event}
use aacs.Wire.Bytes.{front16}
use aacs.Server.Handlers.{to_client, only, InputState, input_handler, handle_from_headunit, Answer}
use aacs.Server.Control.Signals.{
  Server, ok, ClientMessage, connect_signals, handle_channel_message, put_handler,
}
use aacs.Server.Sockets.{client_bytes}
use aacs.GetEvents.{
  Platform, played, play, event_round, press_calls, release_calls, XCall, motion, button, flush,
  TouchEvent, TouchLocation,
}

-- What AAServer sends to one client of the input channel.
abbrev pub input_message : InputState → Message → ℕ → ClientMessage
input_message h m client = record {
  target = only client;
  channel_number = h.input_id;
  is_specific_message = false;
  payload = m.content;
}

-- What `read` returns and leaves in the buffer of 1024 bytes, for one message of the socket.
abbrev pub received : List ℕ → IoReturn × List ℕ
received bytes = (count (min 1024 (length bytes)), take 1024 bytes)

received_whole :
    (bytes : List ℕ) → length bytes ≤ 1024 → received bytes ≡ (count (length bytes), bytes)
received_whole bytes fits =
    let size : min 1024 (length bytes) ≡ length bytes = omega arith in
    rw (size, take_all 1024 bytes fits) refl

regroup :
    {A : Type 0} (motions press release last : List A)
    → motions ++ press ++ release ++ last ≡ motions ++ (press ++ release ++ last)
regroup [] press release last = refl
regroup (c ∷ cs) press release last = ap (λ l. c ∷ l) (regroup cs press release last)

module _ (tls : Tls) (platform : Platform) where
  emitted_to :
      (h : InputState) (m : Message) (cs : List ℕ) (s : Server tls)
      → (connect_signals tls
          (map (λ c. to_client (only c) h.input_id false m.content) cs)
          s).got_messages
        ≡ s.got_messages ++ map (input_message h m) cs
  unfolding connect_signals
  emitted_to h m [] s = sym (append-nil s.got_messages)
  emitted_to h m (c ∷ cs) s =
      emitted_to h m cs _
      ∙ append_assoc s.got_messages (input_message h m c ∷ []) (map (input_message h m) cs)

  round_plays :
      (h : InputState) (m : Message) (client : ℕ)
      → 2 ≤ length m.content
      → event_round platform
          (count (length (client_bytes (input_message h m client))))
          (client_bytes (input_message h m client))
        ≡ played (play platform (platform.touch_event (drop 2 m.content)))
  unfolding event_round client_bytes
  round_plays h m client some_type =
      let body : take (suc (suc (length m.content)) - 4) (drop 2 m.content) ≡ drop 2 m.content =
        take_all (suc (suc (length m.content)) - 4) (drop 2 m.content)
          (omega (arith, length-drop 2 m.content)) in
      rw body (ground arith)

  -- What an action does to button 1, by the numbers of TouchAction.proto: press and down, release
  -- and up.
  abbrev pub button_calls : ℕ → List (XCall platform)
  button_calls action =
      if action == 0
      then button true ∷ []
      else if action == 5
      then button true ∷ []
      else if action == 1
      then button false ∷ []
      else if action == 6
      then button false ∷ []
      else []

  abbrev pub motions : List TouchLocation → List (XCall platform)
  motions [] = []
  motions (l ∷ ls) = motion (platform.translate_coordinates l.x l.y) ∷ motions ls

  motions-map :
      (ls : List TouchLocation)
      → map (λ l. motion (platform.translate_coordinates l.x l.y)) ls ≡ motions ls
  motions-map [] = refl
  motions-map (l ∷ ls) =
      ap (λ cs. motion (platform.translate_coordinates l.x l.y) ∷ cs) (motions-map ls)

  button_calls-play :
      (action : ℕ)
      → press_calls platform action ++ release_calls platform action ≡ button_calls action
  unfolding press_calls release_calls
  button_calls-play action = ground arith

  play-calls :
      (t : TouchEvent)
      → play platform (some t)
        ≡ motions t.touch_location ++ (button_calls t.touch_action ++ flush ∷ [])
  unfolding play
  play-calls t =
      rw (← motions-map t.touch_location, ← button_calls-play t.touch_action)
        (regroup _ (press_calls platform t.touch_action) (release_calls platform t.touch_action)
          (flush ∷ []))

  abbrev answer : InputState → Message → Answer
  answer h m = record {
    handled = true;
    handler = input_handler h;
    emitted = map (λ c. to_client (only c) h.input_id false m.content) h.registered_clients;
  }

  event_answered :
      (h : InputState) (m : Message)
      → front16 m.content ≡ input_code event
      → handle_from_headunit (input_handler h) m ≡ answer h m
  unfolding handle_from_headunit
  event_answered h m kind = rw kind refl

  event_routed :
      (m : Message) (h : InputState) (s : Server tls)
      → m.channel ≢ 0
      → s.handlers m.channel ≡ some (input_handler h)
      → front16 m.content ≡ input_code event
      → handle_channel_message tls m s ≡ (
        ok tt,
        connect_signals tls (answer h m).emitted (put_handler tls m.channel (input_handler h) s),
      )
  unfolding handle_channel_message
  event_routed m h s other some_handler kind =
      let no : (m.channel == 0) ≡ false = ground (arith, other) in
      rw (no, some_handler, event_answered h m kind) refl

  read_fits :
      (h : InputState) (m : Message) (client : ℕ)
      → length m.content ≤ 1022
      → length (client_bytes (input_message h m client)) ≤ 1024
  unfolding client_bytes
  read_fits h m client fits = omega arith

  -- A message with an input event on the channel of the input handler makes AAServer send one
  -- message to each registered client, in the order of their numbers, and each of these makes
  -- GetEvents play the touch event that protobuf finds in the message's body behind its type: the
  -- pointer moves to each location in turn, translated to the root window, then button 1 goes down
  -- for the actions press and down, up for release and up, and stays for any other action, and last
  -- the calls are flushed. The message has at most 1022 bytes, so that it is read whole.
  pub touch_played :
      (m : Message) (h : InputState) (s : Server tls) (client : ℕ) (t : TouchEvent)
      → m.channel ≢ 0
      → s.handlers m.channel ≡ some (input_handler h)
      → front16 m.content ≡ input_code event
      → 2 ≤ length m.content
      → length m.content ≤ 1022
      → platform.touch_event (drop 2 m.content) ≡ some t
      → ((handle_channel_message tls m s).0 ≡ ok tt)
        × ((handle_channel_message tls m s).1.got_messages
            ≡ s.got_messages ++ map (input_message h m) h.registered_clients)
        × (event_round platform
              (received (client_bytes (input_message h m client))).0
              (received (client_bytes (input_message h m client))).1
            ≡ played (motions t.touch_location ++ (button_calls t.touch_action ++ flush ∷ [])))
  touch_played m h s client t other some_handler kind some_type fits parsed =
      let plays =
        round_plays h m client some_type
        ∙ ap (λ x. played (play platform x)) parsed
        ∙ ap played (play-calls t) in
      rw (event_routed m h s other some_handler kind) (
        refl,
        emitted_to h m h.registered_clients (put_handler tls m.channel (input_handler h) s),
        subst
            (λ r.
              event_round platform r.0 r.1
              ≡ played (motions t.touch_location ++ (button_calls t.touch_action ++ flush ∷ [])))
            (sym (
              received_whole (client_bytes (input_message h m client)) (read_fits h m client fits)))
            plays,
      )
