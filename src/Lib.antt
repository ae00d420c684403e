-- ===== src/Lib.antt =====
-- The native part of a Miracast source and sink for Android.
--
-- Under frameworks/av/media/libstagefright/wifi-display, ANetworkSession keeps TCP and UDP
-- sessions, each with its own socket, and a thread that waits with select and lets each session
-- read and write. WifiDisplaySource and WifiDisplaySink speak RTSP over these sessions, one for the
-- device that shows its screen and one for the display, and TunnelRenderer puts the packets of the
-- stream in order for the media player.
--
-- Prelude holds the shared names, list lemmas, signed integers over the native numbers, and the
-- type Outcome: `done`, `blocked` where a call waits for the system for ever, `fault` where a CHECK
-- fails or memory is accessed out of bounds.
--
-- Net/Session.antt is `struct ANetworkSession::Session` of ANetworkSession.cpp: its state,
-- wantsToRead and wantsToWrite, and sendRequest. Under it Notice is what a session posts (notify,
-- notifyError), Read is readMore, with Framing for the length-prefixed datagrams and Interleaved
-- for RTSP connections, and Write is writeMore. RoundTrip, Read/Units, Read/Failure, Write/Failure
-- and Write/Conserve hold proofs.
--
-- Net/Network.antt is ANetworkSession itself: start, stop, destroySession, sendRequest and
-- connectUDPSession over the table of sessions; Create is createClientOrServer with its callers and
-- Loop is one round of threadLoop. Table, Access, Create/Sockets, Loop/Ready,
-- Loop/Numbers, Loop/Asked and Loop/Safe hold proofs. Each operation is one step, as the mutex
-- makes it; threadLoop gives up the mutex during select, so what select found is an argument that
-- need not fit the sessions.
--
-- Sink/Tunnel.antt is sink/TunnelRenderer.cpp: queueBuffer and dequeueBuffer; Stream is its
-- StreamSource with doSomeWork, and the message handler. Queue, Order, History and Stream/Fill hold
-- proofs. Sink/Display.antt is sink/WifiDisplaySink.cpp: the requests it sends under rising CSeq
-- numbers, in Handlers what it does with messages, and in Start how it is started, with ParseURL;
-- Registry, Registry/Once and Registry/Notify hold proofs about the handlers that wait for
-- responses.
--
-- Source.antt is source/WifiDisplaySource.cpp: its state and the calls it makes; Send is its
-- requests, Capabilities and Audio are onReceiveM3Response with GetAudioModes and makeHDCP,
-- Transport and Requests are the sink's requests, Dispatch is the handlers of responses and
-- onReceiveClientData, Stop is finishStop and what follows it, and Receive is onMessageReceived.
-- Registry and Dispatch/Frames hold proofs about the handlers that wait for responses, States those
-- about an abstract machine for mState, and Stop/Ends, Faults and Audio/Entries one subject each.
--
-- Surface.antt is frameworks/native/libs/gui/SurfaceTexture.cpp, the texture that shows the buffers
-- of the display: Context is syncForReleaseLocked, attachToContext and detachFromContext, Update is
-- acquireBufferLocked, releaseBufferLocked and updateTexImage, Crop is setDefaultBufferSize and
-- getCurrentCrop, Images holds proofs about the EGL images and Crop/Bounds those about the crop.
--
-- Codec.antt is frameworks/av/media/libstagefright/ACodec.cpp, the codec that runs an OMX component:
-- Buffers is finding, dequeuing and freeing buffers, Allocate allocateBuffersOnPort, Format
-- sendFormatChange, Blank pushBlankBuffersToNativeWindow, Base the handlers of BaseState, States what
-- the states do on being entered, States/Events their onOMXEvent, and Dispatch their
-- onMessageReceived. Ledger holds proofs about who has each buffer, Shutdown, Nesting and
-- Blank/Balance one subject each.
--
-- Rtsp holds what sink and source share: the monad of their handlers, texts, the interface of
-- parsed messages, the handlers that wait for responses (mResponseHandlers), and in Frame how the
-- steps of a handler add up. Tests holds the theorems at concrete inputs.
--
-- What system calls answer, the clock's readings, the date, the parser of RTSP messages, the RTP
-- sink and what the source's header declares (the order of its states, its constants) are
-- arguments; the calls of the playback session, the HDCP module and the display client are
-- recorded. A status is the error number without its sign, 0 for OK. The CSeq of a message and
-- MIN_UNDEQUEUED_BUFFERS of a window are taken as natural numbers. Arithmetic on `mNextSessionID`,
-- `mNextCSeq` and `mNumDeqeued` wraps at 32 bits, and so do the products of
-- a side and a default size in getCurrentCrop; sequence numbers and times of the renderer and the
-- sides of a crop are unbounded signed integers. The receive loops have fuel for one round more than
-- there are bytes, and each round takes at least one byte off; the other loops follow a list.
--
-- A message to the codec may make it deliver the messages that it deferred, in the handler of which
-- it delivers none: fuel for two handlers within each other is enough.
--
-- Not modelled: logging, the JNI code of Mira4U, which makes the objects and waits for the display
-- to end, and the Java applications; of ACodec configureCodec and what it calls, which set parameters
-- of the component (their outcome is an argument), and the contents of buffers; of SurfaceTexture
-- the transform matrix, which is computed in floating point, the waits for fences, and the setters
-- that pass a value on to the queue.
pub mod Prelude
pub mod Net
pub mod Rtsp
pub mod Sink
pub mod Source
pub mod Surface
pub mod Codec
mod Tests
