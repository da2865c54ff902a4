-- ===== src/Examples/Transport.antt =====
-- The two send queues over the stand-in, with messages of several frames.
use aacs.Prelude.{refl, List, [], ◌∷◌, replicate, arith, inl, inr}
use aacs.Frame.{Message, message, is_encrypted}
use aacs.Transport.Queue.{Emptied}
use aacs.Transport.Single.{IsQueued}
use aacs.Server.Outbox
use aacs.Client.Outbox as ClientOutbox
use aacs.Examples.Loopback.{loopback, loopback_link, fresh}

-- A message that takes two frames of the server, and a plain one behind it.
abbrev server_queue : List Message
server_queue = message 3 11 (replicate 2500 7) ∷ message 0 3 (0 ∷ 2 ∷ 0 ∷ 1 ∷ []) ∷ []

abbrev client_queue : List Message
client_queue = message 2 15 (replicate 10001 7) ∷ []

long_IsQueued : IsQueued (message 3 11 (replicate 2500 7))
long_IsQueued = record {
  byte_flags = omega arith;
  whole = refl;
  from_start = refl;
  fits_kind = inl (refl, omega arith, omega arith);
}

longer_IsQueued : IsQueued (message 2 15 (replicate 10001 7))
longer_IsQueued = record {
  byte_flags = omega arith;
  whole = refl;
  from_start = refl;
  fits_kind = inl (refl, omega arith, omega arith);
}

short_IsQueued : IsQueued (message 0 3 (0 ∷ 2 ∷ 0 ∷ 1 ∷ []))
short_IsQueued = record {
  byte_flags = omega arith;
  whole = refl;
  from_start = refl;
  fits_kind = inr (refl, omega arith);
}

queue_arrives_example :
    Emptied loopback loopback_link
      (Outbox.get_message loopback Outbox.buffer_size)
      3
      server_queue
      fresh
      fresh
unfolding is_encrypted
queue_arrives_example =
    Outbox.queue_arrives loopback loopback_link server_queue fresh fresh (omega arith) (refl, refl)
      (long_IsQueued, (short_IsQueued, tt))

prepared_arrives_example :
    Emptied loopback loopback_link
      (ClientOutbox.prepare_message loopback)
      2
      client_queue
      fresh
      fresh
unfolding is_encrypted
prepared_arrives_example =
    ClientOutbox.prepared_arrives loopback loopback_link client_queue fresh fresh (omega arith)
      (refl, refl) (longer_IsQueued, tt)
