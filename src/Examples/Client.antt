-- ===== src/Examples/Client.antt =====
-- The theorems on the local socket, and on the two programs together, at concrete inputs.
use aacs.Prelude.{
  ◌≡◌, refl, true, false, [], ◌∷◌, ◌++◌, none, some, arith, if◌then◌else◌, ◌==◌, replicate, drop,
}
use aacs.Wire.Bytes.{front16}
use aacs.Frame.{Message, message}
use aacs.Server.Handlers
use aacs.Server.Control.Signals.{Server, ClientMessage, ok}
use aacs.Server.Sockets.Requests.{Hub}
use aacs.Client.Handlers as ClientHandlers
use aacs.Client.Handlers.{VideoState, video_handler, handle_from_mobile, push_buffer, ack}
use aacs.Client.Setup.Faults.{faults_forgiven, faults_give_up}
use aacs.Server.Handlers.Sample.{sample_message}
use aacs.Server.Control.Dispatch.{handle_version_request}
use aacs.Proxy.Version.{version_accepted}
use aacs.Proxy.Video.{stream_timing}
use aacs.Client.Setup.{
  Client, ChannelMessage, handle_message, message_loop, fault, message_arrives, given_up,
  version_request_message, expect_version_response,
}
use aacs.Examples.Loopback.{loopback}
use aacs.Examples.Server.{proto}

abbrev from_phone : ChannelMessage
from_phone = record { channel_number = 5; is_specific_message = true; payload = 0 ∷ 9 ∷ [] }

abbrev from_headunit : ClientMessage
from_headunit = record {
  target = Handlers.only 2;
  channel_number = 5;
  is_specific_message = false;
  payload = 7 ∷ [];
}

-- A client and a server that have a default handler for channel 5.
abbrev client : Client
client = record {
  handlers = λ n. if n == 5 then some (ClientHandlers.default_handler 5) else none;
  service_description = [];
  queue = [];
  channel_messages = [];
  pushed = [];
}

abbrev server : Server loopback
server = record {
  handlers = λ n. if n == 5 then some (Handlers.default_handler 5) else none;
  video_channel = 255;
  input_channel = 255;
  service_descriptor = [];
  queue = [];
  ssl = none;
  got_messages = [];
}

abbrev hub : Hub loopback
hub = record { server = server; clients = (20, 0) ∷ []; client_count = 1; replies = [] }

abbrev relayed : Message
relayed = message 5 15 (0x80 ∷ 1 ∷ 42 ∷ [])

-- Three faults, and a request for the audio focus.
abbrev focus_request : Message
focus_request = message 0 11 (0 ∷ 0x12 ∷ [])

faults_forgiven_example :
    message_loop proto (replicate 3 fault ++ message_arrives focus_request ∷ []) 0 client
    ≡ message_loop proto [] 0 (handle_message proto focus_request client).1
unfolding handle_message front16
faults_forgiven_example =
    faults_forgiven proto 3 focus_request [] client (handle_message proto focus_request client).1
      (omega arith) refl

faults_give_up_example :
    message_loop proto (replicate 30 fault ++ message_arrives focus_request ∷ []) 0 client
    ≡ (given_up, client)
faults_give_up_example = faults_give_up proto (message_arrives focus_request ∷ []) client

version_accepted_example :
    (m : Message) × ((handle_version_request loopback
        (drop 2 (version_request_message 1 1).content)
        server)
      ≡ (ok tt, record server { queue = m ∷ [] }))
    × (m.channel ≡ 0)
    × (m.flags ≡ 3)
    × (expect_version_response m ≡ true)
version_accepted_example = version_accepted loopback 1 server (omega arith)

abbrev video : VideoState
video = record { video_id = 2; start_timestamp = 0; has_source = true }

stream_timing_example :
    ((handle_from_mobile proto
        (video_handler video)
        2
        11
        (sample_message 200000000 (1 ∷ []))).emitted
      ≡ push_buffer 100000000 (1 ∷ []) ∷ ack 2 ∷ [])
    × ((handle_from_mobile proto
          (handle_from_mobile proto
            (video_handler video)
            2
            11
            (sample_message 200000000 (1 ∷ []))).handler
          2
          11
          (sample_message 233000000 (2 ∷ []))).emitted
        ≡ push_buffer 133000000 (2 ∷ []) ∷ ack 2 ∷ [])
stream_timing_example =
    stream_timing proto video 2 11 200000000 233000000 (1 ∷ []) (2 ∷ []) refl refl (omega arith)
      (omega arith) (omega arith) (omega arith) (omega arith)

-- A description of a default channel 5 and a video channel 2, as the pairs of Examples/Server.antt.
abbrev described : Client
described = record client { service_description = 0 ∷ 5 ∷ 3 ∷ 2 ∷ [] }
