-- ===== src/Streams/Tests.antt =====
-- A text that is sealed with a signature on quiet writers, and on one that closes with an error.
use protonmail_go.Prelude.{◌≡◌, refl, none, some, List, [], ◌∷◌}
use protonmail_go.Errors.{other}
use protonmail_go.Result.{ok, err}
use protonmail_go.Http.{Bytes}
use protonmail_go.Mail.{EncryptedKey}
use protonmail_go.Samples.{quiet_io, default_packets, private_packet}
use protonmail_go.Streams.{
  EncryptedData, StreamIo, header_of, no_hints, symetrically_encrypt, write, write_all, close, seal,
}
use protonmail_go.Streams.Sealing.{concat, signed_message, IsMessage, seal-IsMessage}
use protonmail_go.Streams.Chunks.{IsReliable, whole_message, seal-eq-whole_message}

abbrev key : EncryptedKey
key = record { cipher_func = 9; key = 4 ∷ 2 ∷ [] }

abbrev chunks : List Bytes
chunks = (1 ∷ 2 ∷ []) ∷ [] ∷ (3 ∷ []) ∷ []

abbrev signed : EncryptedData
signed =
    signed_message quiet_io default_packets (header_of default_packets key) private_packet no_hints
      (1 ∷ 2 ∷ 3 ∷ []) (1 ∷ 2 ∷ 3 ∷ [])

seal_runs : seal quiet_io default_packets key (some private_packet) none chunks ≡ ok signed
unfolding seal symetrically_encrypt write write_all close
seal_runs = refl

seal-IsMessage_example :
    IsMessage quiet_io default_packets
      (header_of default_packets key)
      (some private_packet)
      no_hints
      (concat chunks)
      signed
seal-IsMessage_example =
    seal-IsMessage quiet_io default_packets key (some private_packet) none chunks signed seal_runs

abbrev broken_io : StreamIo
broken_io = record quiet_io { close = λ d. some (other "full") }

broken_fails :
    seal broken_io default_packets key (some private_packet) none chunks ≡ err (other "full")
unfolding seal symetrically_encrypt write write_all close
broken_fails = refl

abbrev reliable : IsReliable quiet_io
reliable = record {
  begins = λ h. refl;
  takes_packets = λ d p. refl;
  begins_literal = λ d l. refl;
  takes_bytes = λ d b. refl;
  ends_literal = λ d. refl;
  closes = λ d. refl;
}

seal-eq-whole_message_example :
    seal quiet_io default_packets key (some private_packet) none chunks
    ≡ whole_message quiet_io default_packets
        (header_of default_packets key)
        (some private_packet)
        no_hints
        (concat chunks)
seal-eq-whole_message_example =
    seal-eq-whole_message quiet_io default_packets reliable key (some private_packet) none chunks
