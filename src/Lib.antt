-- ===== src/Lib.antt =====
-- AACS connects a phone that runs Android Auto with a car's head unit. AAServer, on a USB gadget
-- port, plays the phone towards the head unit; AAClient, on a USB host port, plays the head unit
-- towards the phone; the two exchange messages over a local socket. This library models the core of
-- both programs and the code that they share, and states what makes it correct.
--
-- The parts, and the files that model them (paths from the repository's root):
-- - Wire/Codes.antt: include/enums.h. Wire/Bytes.antt: pushBackInt16, pushBackInt64 and
--   bytesToUInt64 of src/utils.cpp, and the reading of 16-bit numbers. CheckError.antt: checkError,
--   and a read into a buffer of limited size.
-- - Frame.antt: the body of getMessage (AAServer/src/AaCommunicator.cpp) and prepareMessage
--   (AAClient/src/AaCommunicator.cpp), which are the same up to sizes: `cut` is the four-way choice
--   of a frame, `header` its bytes, `next_frame` the whole call on the queue. Server/Outbox.antt
--   and Client/Outbox.antt give the sizes, sendMessage, writeThread and writeToUsb.
-- - Reassembly.antt: getMessage and decryptMessage of AAClient/src/AaCommunicator.cpp, over the
--   list of USB transfers that arrive. Transport.antt and its children join it with the send
--   queues.
-- - Server/Handlers.antt: the channel handlers of AAServer/src, their signals as values of `Emit`.
-- - Server/Opening.antt and its children: the waits of openChannel, expectHandshakeResponse and
--   expectSetupResponse, as steps of the waiting thread between the messages of the head unit.
-- - Drain.antt: the loop over BIO_read that both sides share. Server/Control.antt and its children:
--   the communicator of AAServer/src/AaCommunicator.cpp: its state (Signals), the service discovery
--   (Discovery), the TLS handshake and decryption (Shake), and handleMessage with its dispatch
--   (Dispatch).
-- - Server/Pump.antt: dataPump of the same file. Server/Sockets.antt and its children:
--   AAServer/src/SocketClient.cpp, AAServer/src/SocketCommunicator.cpp and the callbacks of
--   AAServer/main.cpp, which Server/Sockets/Registered/Steps.antt has as steps of one state.
-- - Client/Handlers.antt: the channel handlers of AAClient/src. Client/Setup.antt: setup and all
--   that its loop calls; Client/Setup/Shake.antt: doSslHandshake and its loop. Client/Socket.antt:
--   the two ends of the socket in AAClient/main.cpp.
-- - Server/Threads.antt and its children: the threads that startThread starts, their common flag,
--   and handleEp0Message. Server/Events.antt: the events of endpoint 0.
-- - Server/Usb.antt and its children: the objects of AAServer/src around libusbg and mount
--   (Gadget), the life of the communicator, with its setup and destructor (Communicator), and the
--   gadget of the mode switch (Mode), as actions that log their calls; Held has the resources that
--   a log holds.
-- - SslContext.antt: initializeSslContext of both sides. Server/Log.antt: logMessage, and
--   scripts/aasl.lua. Server/Event.antt: AAServer/src/ManualResetEvent.cpp.
-- - Client/Start.antt: AAClient/src/Library.cpp and the beginning of AAClient/main.cpp.
-- - Server/Switching.antt: AAServer/src/ModeSwitcher.cpp. Client/Device.antt:
--   AAClient/src/Device.cpp. Server/Descriptors.antt: AAServer/src/descriptors.cpp. GetEvents.antt:
--   GetEvents/main.cpp.
-- - Proxy.antt and its children: the two programs together.
-- - Examples.antt and its children: concrete runs.
-- An operation that changes state is a function from the state to a result and the new state; an
-- exception, or what the source leaves undefined (a null pointer, memory out of bounds), is a value
-- of the result, and nothing is said of the program behind the latter. One thread acts at a time: a
-- step is a callback, a round of a thread, or, in Server/Opening and Server/Event, a single action
-- of it.
--
-- Parameters: OpenSSL is the record `Tls` (Tls.antt), the protocol buffers, whose code protoc
-- generates, are the record `Proto` (Proto.antt), and the results of system calls and of libusb are
-- arguments. `EventLayout`, `UsbConstants` and `Platform` stand for headers and libraries of Linux
-- and X in the same way. `Link` of Tls.antt states what is asked of an established TLS connection.
--
-- Bounds and fuel: a byte is a number below 256 where a theorem needs it, sizes wrap at 2^64 and
-- the length field at 2^16. The pump's inner loop runs on fuel; a round for each byte, or for each
-- frame, is enough, and the threads take turns by whole rounds. The drain of the handshake runs on
-- as much fuel as bytes wait, and one more.
--
-- Not modelled: the GStreamer pipelines, X, libusbg and libusb below their calls, the text that is
-- printed, and the memory that is never freed. Destructors run where an exception is caught further
-- out. A handshake of Proxy/Handshake.antt has AAClient and AAServer as each other's peers, which
-- the programs' protocols allow.
pub mod Prelude
pub mod Wire
pub mod CheckError
pub mod Tls
pub mod Drain
pub mod SslContext
pub mod Proto
pub mod Frame
pub mod Reassembly
pub mod Transport
pub mod Server
pub mod Client
pub mod Proxy
pub mod GetEvents
pub mod Examples
