-- ===== src/Lib.antt =====
-- The LocalSend plugin for KOReader (koreader-plugin/internal), in Go: receiver and senders.
--
-- A sender asks the receiver for a session with the files it wants to send, uploads each file under
-- a token, and may cancel. The session manager admits one active session at a time and vacuums the
-- stopped ones; a session admits one attempt at a time for each file, writes it below the save
-- directory under a sanitized, unique path, and ends with its last file. A rate limiter counts failed
-- PINs, and a nonce cache keeps the nonces of the registration protocol. Over WebRTC the sender and the
-- receiver exchange nonces and signed tokens, then the PIN, the list of files and perhaps a public key,
-- before the files follow as frames of a data channel; devices that were paired are kept in a store.
--
-- Errors: koreader-plugin/internal/localsend/constants/errors.go (ParseError, Status) and the limits
--   of security.go.
-- FilePath and Disk: what the code uses of Go's `path/filepath`, `strings` and `os` on a Unix system.
--   A disk is a map from paths to contents and a list of directories; each call of the system may
--   fail as a function of its path says. Times, permissions and links are left out.
-- Sanitize: koreader-plugin/internal/utils/paths.go (SanitizeRelativePath, SanitizePathWithFallback,
--   IsFolderTransfer).
-- UniqueFile: koreader-plugin/internal/utils/files.go (FindUniqueFolderName, createUniqueFileFrom,
--   UniqueFileAllocator). Its loops are recursion on the number of rounds that the loop's bound
--   MaxUniquePathAttempts leaves.
-- FolderRemap: koreader-plugin/internal/utils/folderremap.go.
-- RateLimiter: koreader-plugin/internal/utils/ratelimit.go, each method a function of the clock.
-- NonceCache: koreader-plugin/internal/localsend/nonce_cache.go, with the elements of container/list
--   as records that have an address.
-- Session: koreader-plugin/internal/localsend/session/recv.go. Session/Body is the copy of an upload
--   and the checks after it, Session/Save is SaveFile as a whole, Session/Atomic the steps that
--   overlapping uploads take: each locked section and each atomic access is one. Session/Alone has the
--   whole operations as runs of them, Session/Overlap and Session/Steps what holds through all runs.
-- Manager: koreader-plugin/internal/localsend/session/recvsessman.go. A Go map and a sync.Map are
--   association lists, a fresh UUID is the next value of a function.
-- Receiver: koreader-plugin/internal/localsend/recv/recv.go, the PIN check, and the handlers of cancel,
--   prepare-upload, upload and the exchange of nonces of handlers.go, for bodies that are parsed.
-- Extensions: koreader-plugin/internal/utils/misc.go (GetFileExtension, IsExtensionAllowed), and
-- Routing: koreader-plugin/internal/localsend/recv/routing.go, with letter case on ASCII names.
-- Crypto: koreader-plugin/internal/crypto/nonce.go and token.go, over Base64, the encoding of Go's
--   base64.RawURLEncoding. Hashes, signatures and the encoding of keys are parameters.
-- TrustedDevices: koreader-plugin/internal/storage/trusted_devices.go, the store and its file.
-- Rtc: koreader-plugin/internal/webrtc/transfer/rtc_protocol.go (ParseRTCMessage) and status.go. Below
--   it, from receiver.go: Rtc/Receiver is the state of an RTCReceiver, what it sends, its cleaning up and
--   the blocked peers; Rtc/Setup a new receiver; Rtc/Handshake and Rtc/Pairing the handlers of the
--   messages; Rtc/Files and Rtc/Bytes the files; Rtc/Frames handleDataMessage and AcceptOffer.
--   Rtc/Sender, with its children, is an RTCSender of sender.go: its state and messages, Setup its making
--   and ends, Handshake and Acceptance the handlers, Frames handleDataMessage, Sending
--   prepareSendQueue and SendFiles. What Open and Read give there, and which calls fail, are parameters;
--   the loops are recursion on the queue, on the blocks that were read and on their parts.
--   Rtc/Transfer and Rtc/Delivery put its frames before the receiver.
--   Rtc/Chunks is SendJSONBinary of peer.go; its loop has as many rounds as the message has bytes, and
--   each takes at least one. JSON, random
--   values, the reading of PEM keys, the sends that fail and the callbacks that choose are fields of
--   an environment. A run-time panic is `none`.
-- Discovery: koreader-plugin/internal/localsend/scan.go, the devices that are kept and, in
--   Discovery/Targets, the addresses of a scan. Signaling: koreader-plugin/internal/webrtc/signaling,
--   what a client of the signaling server keeps and reads. Download and Upload:
--   koreader-plugin/internal/localsend/send/rvsend.go, the server for browsers, and fwdsend.go, the
--   sender over HTTP, whose attempts are recursion on the number that is left of maxUploadAttempts.
-- Prelude: names of the library, Boolean tests, integers and association lists. Witnesses: the
--   theorems at concrete inputs, and tests.
--
-- Machine integers: counters are natural numbers or integers without bound where no run of the program
-- can overflow them; the read limit `expectedSize + 1` is the exception and wraps as in int64.
-- The recursion that prints a number has one more
-- round than the number, and a number has fewer digits than that.
--
-- Not modelled: the parsing of requests and of JSON, the sockets of discovery, the WebRTC connection and
-- the offers over it, the web socket of signaling, certificates, the times of saved files, the commands, and the parts that are not in Go.
-- The sections of AcceptOffer, and the handlers that release the lock of the WebRTC receiver or sender for
-- a callback, are run without another step between them.
pub mod Base64
pub mod Crypto
pub mod Discovery
pub mod Disk
pub mod Download
pub mod Errors
pub mod Extensions
pub mod FilePath
pub mod FolderRemap
pub mod Manager
pub mod NonceCache
pub mod Prelude
pub mod RateLimiter
pub mod Receiver
pub mod Routing
pub mod Rtc
pub mod Sanitize
pub mod Session
pub mod Signaling
pub mod TrustedDevices
pub mod UniqueFile
pub mod Upload
pub mod Witnesses
