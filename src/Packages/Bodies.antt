-- ===== src/Packages/Bodies.antt =====
-- The body that Encrypt and its writer leave in a set.
use protonmail_go.Prelude.{
  ℕ, String, ◌≡◌, refl, Option, none, some, List, [], ◌∷◌, ℤ, pos, arith, Bool, true, false,
  if◌then◌else◌, ap, sym, ◌∙◌,
}
use protonmail_go.Errors.{Error, other}
use protonmail_go.Result.{Result, ok, err, ◌>>=◌, ok-injective}
use protonmail_go.Http.{Bytes}
use protonmail_go.Mail.{EncryptedKey}
use protonmail_go.Pgp.{PrivateKeyPacket, Entity, Key, KeyRules}
use protonmail_go.KeySelection.{signing_key}
use protonmail_go.Streams.{
  EncryptedData, Stream, header_of, no_hints, write_all, write, close, and_then, finished, seal,
}
use protonmail_go.Streams.Sealing.{concat, IsMessage, seal-IsMessage}
use protonmail_go.Packages.{
  MessagePackageSet, PackageCrypto, OutgoingWriter, generate_unencrypted_key, encrypt, write_body,
  close_body, signer_of, with_cleartext, open_writer, opened, sealed_body, open_signed, open_keyed,
}

not_refused :
    (b : Bool) (q p : PrivateKeyPacket) (x : Error)
    → (if b then err x else ok q) ≡ ok p
    → (b ≡ false) × (q ≡ p)
not_refused true q p x h = cc
not_refused false q p x h = (refl, ok-injective h)

module _ (crypto : PackageCrypto) (rules : KeyRules) (now : ℕ) where
  -- Writes one after another, up to the first that fails.
  write_bodies : List Bytes → OutgoingWriter → Option Error × OutgoingWriter
  write_bodies [] w = (none, w)
  write_bodies (chunk ∷ rest) w = and_then (write_body crypto chunk w) (write_bodies rest)

  finish_body : MessagePackageSet → Option Error × OutgoingWriter → Option Error × MessagePackageSet
  finish_body set (some e, w) = (some e, set)
  finish_body set (none, w) = close_body crypto w set

  fill_body :
      List Bytes → Result OutgoingWriter × MessagePackageSet → Option Error × MessagePackageSet
  unfolding write_bodies finish_body
  fill_body chunks (err e, set) = (some e, set)
  fill_body chunks (ok w, set) = finish_body set (write_bodies chunks w)

  -- Encrypt, the writes of a text in chunks, and Close.
  unfoldable pub encrypt_body :
      String → Option Entity → List Bytes → MessagePackageSet → Option Error × MessagePackageSet
  unfolding fill_body write_bodies finish_body
  encrypt_body mime_type signed chunks set =
      fill_body chunks (encrypt crypto rules now mime_type signed set)

  -- The key that signs for an entity: none, or its signing key, whose private part is decrypted.
  abbrev pub SignsFor : Option Entity → Option PrivateKeyPacket → Type 0
  SignsFor none signer = signer ≡ none
  SignsFor (some e) signer =
      (p : PrivateKeyPacket) × (k : Key) × (signer ≡ some p)
      × (signing_key rules now e ≡ ok (some k))
      × (k.private_key ≡ some p)
      × (p.is_encrypted ≡ false)

  abbrev pub signature_after : Option Entity → ℤ → ℤ
  signature_after none old = old
  signature_after (some e) old = pos 1

  -- The set after a text was encrypted: its body is a message of the text under a new session key,
  -- signed by the key that signs for the entity, if there is one.
  pub record IsFilled (mime_type : String) (signed : Option Entity) (text : Bytes)
      (set set' : MessagePackageSet) : Type 0 where
    pub key : EncryptedKey
    pub generated : generate_unencrypted_key crypto ≡ ok key
    pub signer : Option PrivateKeyPacket
    pub signs : SignsFor signed signer
    pub sealed : EncryptedData
    pub is_message :
        IsMessage crypto.stream_io crypto.config
          (header_of crypto.config key)
          signer
          no_hints
          text
          sealed
    pub changed : set' ≡ record set {
      mime_type = mime_type;
      session_key = some key;
      signature = signature_after signed set.signature;
      body = crypto.encode_to_string (crypto.render sealed);
    }

  private_part :
      (k : Key) (o : Option PrivateKeyPacket) (p : PrivateKeyPacket)
      → k.private_key ≡ o
      → signer_of crypto rules now (ok (some k)) ≡ ok p
      → (k.private_key ≡ some p) × (p.is_encrypted ≡ false)
  unfolding signer_of
  private_part k none p e h = cc (rw e at h)
  private_part k (some q) p e h =
      let (b, same) =
        not_refused q.is_encrypted q p (other "signing key must be decrypted") (rw e at h) in
      (e ∙ ap (λ x. some x) same, sym (ap (λ (x : PrivateKeyPacket). x.is_encrypted) same) ∙ b)

  signer_of-SignsFor :
      (e : Entity) (r : Result (Option Key)) (p : PrivateKeyPacket)
      → signing_key rules now e ≡ r
      → signer_of crypto rules now r ≡ ok p
      → SignsFor (some e) (some p)
  unfolding signer_of
  signer_of-SignsFor e (err x) p s h = absurd (ground arith)
  signer_of-SignsFor e (ok none) p s h = absurd (ground arith)
  signer_of-SignsFor e (ok (some k)) p s h =
      let (private, decrypted) = private_part k k.private_key p refl h in
      (p, k, refl, s, private, decrypted)

  wrote :
      (rest : List Bytes)
      → ((s : Stream)
          → write_bodies rest (record { cleartext = s })
            ≡ with_cleartext crypto (write_all crypto.stream_io crypto.config rest s))
      → (r : Option Error × Stream)
      → and_then (with_cleartext crypto r) (write_bodies rest)
        ≡ with_cleartext crypto (and_then r (write_all crypto.stream_io crypto.config rest))
  unfolding with_cleartext
  wrote rest ih (some e, s) = refl
  wrote rest ih (none, s) = ih s

  write_bodies-write_all :
      (chunks : List Bytes) (s : Stream)
      → write_bodies chunks (record { cleartext = s })
        ≡ with_cleartext crypto (write_all crypto.stream_io crypto.config chunks s)
  unfolding write_bodies write_all write_body
  write_bodies-write_all [] s = unfold with_cleartext in refl
  write_bodies-write_all (chunk ∷ rest) s =
      wrote rest (write_bodies-write_all rest) (write crypto.stream_io crypto.config chunk s)

  -- A result of a stream's calls, and the set whose body it has become.
  abbrev Stores : MessagePackageSet → MessagePackageSet → Result EncryptedData → Type 0
  Stores set set' r =
      (d : EncryptedData) × (r ≡ ok d)
      × (set' ≡ record set { body = crypto.encode_to_string (crypto.render d) })

  sealed_body-Stores :
      (set : MessagePackageSet) (r : Option Error × Stream) {set' : MessagePackageSet}
      → sealed_body crypto set r ≡ (none, set')
      → Stores set set' (finished r)
  unfolding sealed_body finished
  sealed_body-Stores set (some e, s) h = absurd (ground arith)
  sealed_body-Stores set (none, s) h = (s.encrypted, refl, ground arith)

  finish_body-Stores :
      (set : MessagePackageSet) (r : Option Error × Stream) {set' : MessagePackageSet}
      → finish_body set (with_cleartext crypto r) ≡ (none, set')
      → Stores set set' (finished (and_then r (close crypto.stream_io crypto.config)))
  unfolding finish_body with_cleartext close_body
  finish_body-Stores set (some e, s) h = absurd (ground arith)
  finish_body-Stores set (none, s) h = sealed_body-Stores set _ h

  fill_body-Stores :
      (chunks : List Bytes) (set : MessagePackageSet) (r : Result Stream) {set' : MessagePackageSet}
      → fill_body chunks (opened crypto rules now set r) ≡ (none, set')
      → Stores set set' (
          r >>= λ s. finished (
            and_then
              (write_all crypto.stream_io crypto.config chunks s)
              (close crypto.stream_io crypto.config)))
  unfolding fill_body opened
  fill_body-Stores chunks set (err e) h = absurd (ground arith)
  fill_body-Stores chunks set (ok s) h =
      finish_body-Stores set (write_all crypto.stream_io crypto.config chunks s)
        (rw (write_bodies-write_all chunks s) at h)

  -- From a key and a signer on, with the set that Encrypt has changed.
  open_writer-IsFilled :
      (mime_type : String) (signed : Option Entity) (chunks : List Bytes) (set : MessagePackageSet)
      {set' : MessagePackageSet} (key : EncryptedKey) (signer : Option PrivateKeyPacket)
      → generate_unencrypted_key crypto ≡ ok key
      → SignsFor signed signer
      → fill_body chunks (
          open_writer crypto rules now key signer (record set {
            mime_type = mime_type;
            session_key = some key;
            signature = signature_after signed set.signature;
          }))
        ≡ (none, set')
      → IsFilled mime_type signed (concat chunks) set set'
  unfolding open_writer seal
  open_writer-IsFilled mime_type signed chunks set key signer g s h =
      let (d, sealed, changed) = fill_body-Stores chunks _ _ h in
      record {
        key = key;
        generated = g;
        signer = signer;
        signs = s;
        sealed = d;
        is_message = seal-IsMessage crypto.stream_io crypto.config key signer none chunks d sealed;
        changed = changed;
      }

  signed-IsFilled :
      (mime_type : String) (e : Entity) (chunks : List Bytes) (set : MessagePackageSet)
      {set' : MessagePackageSet} (key : EncryptedKey) (signer : Result PrivateKeyPacket)
      → generate_unencrypted_key crypto ≡ ok key
      → signer_of crypto rules now (signing_key rules now e) ≡ signer
      → fill_body chunks (
          open_signed crypto rules now key signer
            (record set { mime_type = mime_type; session_key = some key }))
        ≡ (none, set')
      → IsFilled mime_type (some e) (concat chunks) set set'
  unfolding open_signed
  signed-IsFilled mime_type e chunks set key (err f) g s h =
      absurd (unfold fill_body in ground arith)
  signed-IsFilled mime_type e chunks set key (ok p) g s h =
      open_writer-IsFilled mime_type (some e) chunks set key (some p) g
        (signer_of-SignsFor e (signing_key rules now e) p refl s) h

  keyed-IsFilled :
      (mime_type : String) (signed : Option Entity) (chunks : List Bytes) (set : MessagePackageSet)
      {set' : MessagePackageSet} (key : Result EncryptedKey)
      → generate_unencrypted_key crypto ≡ key
      → fill_body chunks
          (open_keyed crypto rules now signed (record set { mime_type = mime_type }) key)
        ≡ (none, set')
      → IsFilled mime_type signed (concat chunks) set set'
  unfolding open_keyed
  keyed-IsFilled mime_type signed chunks set (err e) g h = absurd (unfold fill_body in ground arith)
  keyed-IsFilled mime_type none chunks set (ok key) g h =
      open_writer-IsFilled mime_type none chunks set key none g refl h
  keyed-IsFilled mime_type (some e) chunks set (ok key) g h =
      signed-IsFilled mime_type e chunks set key _ g refl h

  -- When Encrypt, the writes and Close succeed, the body of the set is the encoding of one message,
  -- closed once, that holds the whole text under the session key that was generated and that the set
  -- then keeps; with an entity it is signed, over the whole text, by that entity's decrypted signing
  -- key. Besides, only the MIME type and, with an entity, the signature flag have changed.
  pub encrypt_body-IsFilled :
      (mime_type : String) (signed : Option Entity) (chunks : List Bytes)
      (set set' : MessagePackageSet)
      → encrypt_body mime_type signed chunks set ≡ (none, set')
      → IsFilled mime_type signed (concat chunks) set set'
  unfolding encrypt_body encrypt
  encrypt_body-IsFilled mime_type signed chunks set set' h =
      keyed-IsFilled mime_type signed chunks set (generate_unencrypted_key crypto) refl h
