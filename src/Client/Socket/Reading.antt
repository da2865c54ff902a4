-- ===== src/Client/Socket/Reading.antt =====
-- The thread of AAClient/main.cpp that reads what AAServer sends.
use aacs.Prelude.{
  ℕ, ◌+◌, ◌≤◌, ◌≡◌, refl, ap, ◌∙◌, List, [], ◌∷◌, ◌++◌, map, length, some, All, bit_or,
  if◌then◌else◌, append-nil, append_assoc, arith,
}
use aacs.CheckError.{IoReturn, count, failed, eintr, eagain, check_error, one_read, one_read-whole}
use aacs.Frame.{Message, message}
use aacs.Wire.Codes.{specific}
use aacs.Server.Control.Signals.{ClientMessage}
use aacs.Server.Sockets.{client_bytes}
use aacs.Client.Handlers.{default_handler, encrypted_bulk, handle_from_server}
use aacs.Client.Setup.{
  Client, Step, done, unexpected_message, vector_too_small, undefined, send_message_public,
  connect_signals,
}
use aacs.Client.Socket.{FromServer, nothing_read, message_read, thread_error, read_message}
use aacs.Proxy.{read_message-client_bytes}

-- Whether the loop still reads, or an exception has left it, or a message has come on a channel
-- without a handler, whose null pointer `sendMessagePublic` uses.
pub data ReadEnd : Type 0 where
  reading left_by_error null_dereference : ReadEnd

after_given : (Client → ReadEnd × Client) → Step × Client → ReadEnd × Client
after_given later (done, c) = later c
after_given later (unexpected_message, c) = (left_by_error, c)
after_given later (vector_too_small, c) = (left_by_error, c)
after_given later (undefined, c) = (null_dereference, c)

unfoldable pub after_message : FromServer → (Client → ReadEnd × Client) → Client → ReadEnd × Client
unfolding after_given
after_message nothing_read later c = later c
after_message (message_read channel is_spec bytes) later c =
    after_given later (send_message_public channel is_spec bytes c)
after_message thread_error later c = (left_by_error, c)

-- The loop over what the reads return, with what stands in the buffer.
unfoldable pub reading_thread : List (IoReturn × List ℕ) → Client → ReadEnd × Client
unfolding after_message
reading_thread [] c = (reading, c)
reading_thread ((r, buffer) ∷ reads) c =
    after_message (read_message r buffer) (reading_thread reads) c

-- What a read can meet: a message of AAServer, an interruption, or a connection that AAServer has closed.
pub data Arrival : Type 0 where
  message_arrives : ClientMessage → Arrival
  interrupted no_data closed : Arrival

abbrev pub read_of : Arrival → IoReturn × List ℕ
read_of (message_arrives m) = one_read 102400 (client_bytes m)
read_of interrupted = (failed eintr, [])
read_of no_data = (failed eagain, [])
read_of closed = (count 0, [])

-- The message fits into the buffer of the thread, and its channel has a default handler.
abbrev pub IsPassed : Client → Arrival → Type 0
IsPassed c (message_arrives m) =
    (length m.payload + 2 ≤ 102400)
    × ((id : ℕ) × (c.handlers m.channel_number ≡ some (default_handler id)))
IsPassed c other = Unit {0}

-- What the phone is sent.
abbrev pub for_phone : ClientMessage → Message
for_phone m =
    message m.channel_number
      (if m.is_specific_message then bit_or encrypted_bulk specific else encrypted_bulk) m.payload

abbrev pub messages_in : List Arrival → List Message
messages_in [] = []
messages_in (message_arrives m ∷ rest) = for_phone m ∷ messages_in rest
messages_in (other ∷ rest) = messages_in rest

message_queued :
    (m : ClientMessage) (c : Client) (id : ℕ)
    → c.handlers m.channel_number ≡ some (default_handler id)
    → send_message_public m.channel_number m.is_specific_message m.payload c
      ≡ (done, record c { queue = c.queue ++ for_phone m ∷ [] })
unfolding send_message_public connect_signals handle_from_server
message_queued m c id e = rw (e, send_message_public) refl

-- What is queued changes no handler.
still-IsPassed :
    (arrivals : List Arrival) (c : Client) (queue : List Message)
    → All (IsPassed c) arrivals
    → All (IsPassed (record c { queue = queue })) arrivals
still-IsPassed [] c queue h = tt
still-IsPassed (message_arrives m ∷ rest) c queue (h, hs) = (h, still-IsPassed rest c queue hs)
still-IsPassed (interrupted ∷ rest) c queue (h, hs) = (tt, still-IsPassed rest c queue hs)
still-IsPassed (no_data ∷ rest) c queue (h, hs) = (tt, still-IsPassed rest c queue hs)
still-IsPassed (closed ∷ rest) c queue (h, hs) = (tt, still-IsPassed rest c queue hs)

message_arrived :
    (m : ClientMessage) (later : Client → ReadEnd × Client) (c : Client)
    → length m.payload + 2 ≤ 102400
    → after_message
        (read_message (read_of (message_arrives m)).0 (read_of (message_arrives m)).1)
        later
        c
      ≡ after_given later (send_message_public m.channel_number m.is_specific_message m.payload c)
unfolding after_message
message_arrived m later c fits =
    ap (λ r. after_message (read_message r.0 r.1) later c)
      (one_read-whole 102400 (client_bytes m) (unfold client_bytes in omega arith))
    ∙ ap (λ f. after_message f later c) (read_message-client_bytes m)

-- The messages that AAServer writes to AAClient on channels with default handlers are all queued for
-- the phone, each once, on its channel, with its content, encrypted in one piece, specific exactly if
-- it was, and in order, whatever interruptions come in between. Nothing else of AAClient's state
-- changes. The thread goes on reading all the while, also when the connection is closed and each read
-- gives nothing. With the two bytes in front of it no message is longer than the buffer of 100 KiB.
pub messages_read_in_order :
    (arrivals : List Arrival) (c : Client)
    → All (IsPassed c) arrivals
    → reading_thread (map read_of arrivals) c
      ≡ (reading, record c { queue = c.queue ++ messages_in arrivals })
unfolding reading_thread after_message after_given read_message check_error
messages_read_in_order [] c h = rw (append-nil c.queue) refl
messages_read_in_order (message_arrives m ∷ rest) c ((fits, (id, e)), hs) =
    message_arrived m (reading_thread (map read_of rest)) c fits
    ∙ ap (after_given (reading_thread (map read_of rest))) (message_queued m c id e)
    ∙ messages_read_in_order rest _ (still-IsPassed rest c (c.queue ++ for_phone m ∷ []) hs)
    ∙ rw (append_assoc c.queue (for_phone m ∷ []) (messages_in rest)) refl
messages_read_in_order (interrupted ∷ rest) c (h, hs) = messages_read_in_order rest c hs
messages_read_in_order (no_data ∷ rest) c (h, hs) = messages_read_in_order rest c hs
messages_read_in_order (closed ∷ rest) c (h, hs) = messages_read_in_order rest c hs
