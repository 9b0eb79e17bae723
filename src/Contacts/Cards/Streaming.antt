-- ===== src/Contacts/Cards/Streaming.antt =====
-- detachedSignatureReader of contacts.go: the signature of an encrypted card is checked when the body
-- has been read to its end, in however many pieces.
use Prim.Native.String.{◌++◌ as append}
use protonmail_go.Prelude.{
  ℕ, zero, suc, String, ◌≡◌, refl, sym, subst, Bool, true, false, Option, none, some, List, [], ◌∷◌,
  if◌then◌else◌, length, ◌<◌, ◌⊎◌, inl, inr, arith,
}
use protonmail_go.Errors.{Error}
use protonmail_go.Result.{Result, ok, err, ◌>>=◌, ok-injective, bind-rule, Result-cases}
use protonmail_go.Pgp.{Entity}
use protonmail_go.Contacts.Cards.{CardDetails, CardPgp, with_check, at_end}

-- How a Read ends: with bytes and no error, or with io.EOF or another error.
pub data ReadEnd : Type 0 where
  going : ReadEnd
  eof : ReadEnd
  failed : Error → ReadEnd

-- What one Read of the body gives; a Read may give its last bytes together with io.EOF.
pub record Piece : Type 0 where
  pub text : String
  pub last : Bool

-- `detachedSignatureReader`. Its body is the pieces to come and then the error, if it is not io.EOF;
-- `checked` is its field `eof`.
pub record SignatureReader : Type 0 where
  pub md : CardDetails
  pub body : List Piece
  pub failure : Option Error
  pub signed : String
  pub signature : String
  pub keyring : List Entity
  pub checked : Bool

-- What the body's next Read gives, and the pieces after it.
abbrev next_piece : List Piece → Option Error → String × ReadEnd × List Piece
next_piece [] none = ("", eof, [])
next_piece [] (some e) = ("", failed e, [])
next_piece (p ∷ rest) failure = (p.text, if p.last then eof else going, if p.last then [] else rest)

-- The text up to the body's end, after some text, or the error that ends it.
abbrev pub outcome : String → List Piece → Option Error → Result String
outcome before [] none = ok (append before "")
outcome before [] (some e) = err e
outcome before (p ∷ rest) failure =
    if p.last then ok (append before p.text) else outcome (append before p.text) rest failure

module _ (pgp : CardPgp) where
  check_signature : SignatureReader → Result SignatureReader
  check_signature r = with_check pgp (pgp.check r.keyring r.signed r.signature) r.md >>= λ md.
      ok (record r { md = md; checked = true })

  at_read_end : ReadEnd → Bool → SignatureReader → Result SignatureReader
  unfolding check_signature
  at_read_end eof false r = check_signature r
  at_read_end eof true r = ok r
  at_read_end going checked r = ok r
  at_read_end (failed e) checked r = ok r

  -- `(*detachedSignatureReader).Read`, with the reader that it leaves; its TeeReader keeps the text.
  unfoldable pub read : SignatureReader → Result SignatureReader
  unfolding at_read_end
  read r =
      let (text, end, rest) = next_piece r.body r.failure in
      at_read_end end r.checked (record r { body = rest; signed = append r.signed text })

  unfoldable pub reads : ℕ → SignatureReader → Result SignatureReader
  reads zero r = ok r
  reads (suc n) r = read r >>= reads n

  -- A new reader on details, as ContactCard.Read makes it.
  abbrev pub new_reader :
      CardDetails → List Piece → Option Error → String → List Entity → SignatureReader
  new_reader md body failure signature keyring = record {
    md = md;
    body = body;
    failure = failure;
    signed = "";
    signature = signature;
    keyring = keyring;
    checked = false;
  }

  -- How the details stand: before the end they are the given ones, and after it those of a check of
  -- the whole text, or the given ones if the body ends with an error.
  module _ (md : CardDetails) (signature : String) (keyring : List Entity)
      (whole : Result String) where
    abbrev reader_at : CardDetails → List Piece → Option Error → String → Bool → SignatureReader
    reader_at now body failure signed checked = record {
      md = now;
      body = body;
      failure = failure;
      signed = signed;
      signature = signature;
      keyring = keyring;
      checked = checked;
    }

    abbrev pub IsDone : SignatureReader → Type 0
    IsDone r = at_end pgp keyring signature whole md ≡ ok r.md

    abbrev Stands : CardDetails → List Piece → Option Error → String → Bool → Type 0
    Stands now body failure signed false = (now ≡ md) × (outcome signed body failure ≡ whole)
    Stands now body failure signed true = at_end pgp keyring signature whole md ≡ ok now

    -- A reader of this signature that stands well, and is done once fewer pieces than a bound are left.
    abbrev Fits : ℕ → SignatureReader → Type 0
    Fits n r =
        (r.signature ≡ signature)
        × (r.keyring ≡ keyring)
        × Stands r.md r.body r.failure r.signed r.checked
        × (IsDone r ⊎ (length r.body < n))

    abbrev FitsOk : ℕ → Result SignatureReader → Type 0
    FitsOk n (err e) = Unit
    FitsOk n (ok r) = Fits n r

    checked-Fits :
        (n : ℕ) (body : List Piece) (failure : Option Error) (text : String)
        → whole ≡ ok text
        → FitsOk n (check_signature (reader_at md body failure text false))
    unfolding check_signature at_end
    checked-Fits n body failure text w =
        bind-rule (FitsOk n) (with_check pgp (pgp.check keyring text signature) md) _ (λ e _. tt)
          (λ now h.
            let done : at_end pgp keyring signature whole md ≡ ok now = rw w h in
            (refl, refl, done, inl done))

    -- Once the signature was checked, a Read changes the details no more.
    after_check :
        (n : ℕ) (end : ReadEnd) (now : CardDetails) (body : List Piece) (failure : Option Error)
        (signed : String)
        → at_end pgp keyring signature whole md ≡ ok now
        → FitsOk n (at_read_end end true (reader_at now body failure signed true))
    unfolding at_read_end
    after_check n eof now body failure signed s = (refl, refl, s, inl s)
    after_check n going now body failure signed s = (refl, refl, s, inl s)
    after_check n (failed e) now body failure signed s = (refl, refl, s, inl s)

    piece-Fits :
        (n : ℕ) (text : String) (last : Bool) (rest : List Piece) (failure : Option Error)
        (signed : String)
        → outcome signed (record { text = text; last = last } ∷ rest) failure ≡ whole
        → (at_end pgp keyring signature whole md ≡ ok md) ⊎ (length rest < n)
        → FitsOk n
            (read (reader_at md (record { text = text; last = last } ∷ rest) failure signed false))
    unfolding read at_read_end
    piece-Fits n text true rest failure signed w d =
        checked-Fits n [] failure (append signed text) (sym w)
    piece-Fits n text false rest failure signed w d = (refl, refl, (refl, w), d)

    unchecked-Fits :
        (n : ℕ) (body : List Piece) (failure : Option Error) (signed : String)
        → outcome signed body failure ≡ whole
        → (at_end pgp keyring signature whole md ≡ ok md) ⊎ (length body < suc n)
        → FitsOk n (read (reader_at md body failure signed false))
    unchecked-Fits n [] none signed w d =
        unfold read at_read_end in checked-Fits n [] none (append signed "") (sym w)
    unchecked-Fits n [] (some e) signed w d =
        unfold read at_read_end in (refl, refl, (refl, w), inl (rw (sym w) (unfold at_end in refl)))
    unchecked-Fits n (p ∷ rest) failure signed w (inl done) =
        piece-Fits n p.text p.last rest failure signed w (inl done)
    unchecked-Fits n (p ∷ rest) failure signed w (inr less) =
        piece-Fits n p.text p.last rest failure signed w (inr (omega arith))

    read-Fits :
        (n : ℕ) (now : CardDetails) (body : List Piece) (failure : Option Error) (signed : String)
        (checked : Bool)
        → Stands now body failure signed checked
        → (at_end pgp keyring signature whole md ≡ ok now) ⊎ (length body < suc n)
        → FitsOk n (read (reader_at now body failure signed checked))
    read-Fits n now body failure signed true s d =
        unfold read in after_check n (next_piece body failure).1 now _ failure _ s
    read-Fits n now body failure signed false (same, w) d =
        subst (λ m. FitsOk n (read (reader_at m body failure signed false))) (sym same)
          (unchecked-Fits n body failure signed w (
            subst (λ m. (at_end pgp keyring signature whole md ≡ ok m) ⊎ (length body < suc n)) same
              d))

    any_read-Fits : (n : ℕ) (r : SignatureReader) → Fits (suc n) r → FitsOk n (read r)
    any_read-Fits n r (sig, ring, s, d) =
        subst (λ t. FitsOk n (read (record r { signature = t }))) (sym sig)
          (subst (λ t. FitsOk n (read (record r { signature = signature; keyring = t }))) (sym ring)
            (read-Fits n r.md r.body r.failure r.signed r.checked s d))

    reads-IsDone : (n : ℕ) (r r' : SignatureReader) → Fits n r → reads n r ≡ ok r' → IsDone r'
    unfolding reads
    reads-IsDone zero r r' (sig, ring, s, inl done) h = subst IsDone (ok-injective h) done
    reads-IsDone zero r r' (sig, ring, s, inr less) h = absurd (omega arith)
    reads-IsDone (suc n) r r' f h = elim (Result-cases (read r)) [
      | inl (next, e) ↦
          reads-IsDone n next r' (subst (FitsOk n) e (any_read-Fits n r f)) (rw e at h)
      | inr (x, e) ↦ absurd (ground arith)
    ]

  -- However a body is cut into Reads, after one Read more than it has pieces the details are those of
  -- a check of the whole text, made once, and they are the given ones if the body ends with an error.
  pub reads-at_end :
      (md : CardDetails) (body : List Piece) (failure : Option Error) (signature : String)
      (keyring : List Entity) (n : ℕ) (r : SignatureReader)
      → length body < n
      → reads n (new_reader md body failure signature keyring) ≡ ok r
      → at_end pgp keyring signature (outcome "" body failure) md ≡ ok r.md
  reads-at_end md body failure signature keyring n r less h =
      reads-IsDone md signature keyring (outcome "" body failure) n
        (new_reader md body failure signature keyring) r (refl, refl, (refl, refl), inr less) h
