-- ===== src/Lib.antt =====
-- Verification library of protonmail-go, a Go client of the Proton Mail API.
--
-- The program is one package. A Client (protonmail.go) is built from options (options.go); each of its
-- methods builds a request with newRequest or newJSONRequest and hands it to doJSON, which sends it
-- by do, with re-authentication and retry on status 401, and turns the answer into a value or into one
-- of the errors of errors.go. The values are mail, events, contacts, calendars and keys. Beside the
-- requests the client selects OpenPGP keys (crypto.go), builds the packages of an outgoing message
-- (messages.go), protects contact cards (contacts.go), streams imports (import.go) and unlocks
-- private keys (auth.go, password.go).
--
-- Files and the code they model, by paths from the repository's root:
--   Errors        errors.go and the APIError of protonmail.go: the sentinels and errors.Is
--   Client        options.go and NewClient of protonmail.go
--   Transport     protonmail.go: newRequest, newJSONRequest and what they log; below it Exchange is
--                 do with drainAndClose, Json is doJSON
--   Endpoint      the compositions of those that the methods of every other file are
--   Account       users.go, addresses.go, labels.go, keys.go
--   Mail          the values of messages.go and attachments.go that JSON carries
--   Messages      messages.go: the requests and their queries; below it Reading is Message.Read and
--                 Message.Encrypt, Outgoing is SendMessage
--   Packages      messages.go: MessagePackageSet and the writer of its body; below it KeyPackets is about
--                 AddInternal, Bodies about Encrypt, Clear and Soundness about AddCleartext, Secrecy
--                 about the keys before it
--   Streams       crypto.go: symetricallyEncrypt, signatureWriter, noOpCloser, by the packets they write
--   Pipe          the io.Pipe between a goroutine that writes a body, in attachments.go, and the client
--   Multipart     the forms of mime/multipart that are written to it
--   Events        events.go: label arithmetic and the decoding of entries; EventStream is GetEvent
--   KeySelection  crypto.go: primaryIdentity, encryptionKey, signingKey
--   Contacts      contacts.go; below it Cards is the protection of cards
--   Conversations, Calendar, Attachments, Import, Password: the files of these names
--   KeyUnlock     auth.go: from a key's record to the unlocked entity
--   Auth          auth.go: the requests, Logout and Unlock; below it Login is Client.Auth
--   Lifecycle     a client in use: calls of the methods above one after another
--   Srp           srp.go: below it Integers is itoa and atoi, Handshake is the rest; Agreement has the
--                 server's side of SRP-6a, which is no part of the program
--   Http, Pgp, Text: what is used of net/http, of go-crypto and of strings and strconv
--   Samples       values that tests share; each component's tests are in its own Tests
--
-- State. `Session` is the part of a Client that changes, `Config` the part that does not, and `Net`
-- joins the session with the outside world, the number of open response bodies, the requests sent and
-- the debug log. A method is a function on `Net` (`Act`) that gives a result beside the new `Net`. The
-- HTTP client with the network behind it is a function on an arbitrary state `W` of the world, and a
-- callback of WithReAuth acts on the session and on that world; it does not replace the Client's fixed
-- fields.
--
-- Fuel. The retry of do is a recursion without a bound in the code. `do_request` counts rounds by fuel
-- and gives `none` when it runs out; Transport.Exchange.Termination shows how much is enough, and
-- Transport.Exchange.Divergence that some servers exhaust any. Decimal texts are made on fuel one above
-- the number, which has no more digits than that, and the bytes of a number on the number itself. The
-- loop of generateProofs draws secrets on fuel, since the random reader may go on giving bad
-- ones; Srp.Handshake.Ending shows how much is enough. Every other loop is structural.
--
-- Arguments. net/url, encoding/json, encoding/base64, mime/multipart, the clock, bcrypt, SHA-512 and
-- go-crypto are arguments: functions of what they are asked. A method's decoder is a function from the
-- bytes of a body to an envelope, and the encoder of a request body one to bytes. Go maps that are read
-- in an arbitrary order are read in an order that is an argument, or in the order of a list that
-- theorems quantify over. A panic of the code is an error value, `panicked`, that matches no sentinel.
--
-- A pipe is a state with its two ends, and theorems range over the schedules of the goroutine and of the
-- reader. A stream is the sequence of packets that come into the encrypted data; go-crypto's calls may
-- fail at any of them.
--
-- Lifecycle has Auth, Unlock, Logout and the three compositions of Endpoint as its calls; AuthRefresh,
-- which sends the UID of its argument beside the session's token, and GetAttachment, which hands out an
-- open body, are not among them.
--
-- Not modelled. The bytes of OpenPGP packets, of armor and of multipart headers, which are arguments.
-- Contexts and cancellation are part of the world, which may answer with any transport error. The caps
-- on draining a body are not, since a drained body is only closed. The goroutine of Import runs as one
-- step when the body ends, and an upload whose source fails is a failed request, of which the server
-- sees nothing. The verbatim texts of the other errors leave out the values that fmt would insert.
pub mod Prelude
pub mod Errors
pub mod Result
pub mod Text
pub mod Pgp
pub mod Http
pub mod Client
pub mod Transport
pub mod Mail
pub mod Events
pub mod Endpoint
pub mod Account
pub mod Messages
pub mod Conversations
pub mod Calendar
pub mod KeySelection
pub mod Contacts
pub mod Packages
pub mod Password
pub mod KeyUnlock
pub mod Auth
pub mod Import
pub mod Samples
pub mod Attachments
pub mod EventStream
pub mod Srp
pub mod Streams
pub mod Pipe
pub mod Multipart
pub mod Lifecycle
