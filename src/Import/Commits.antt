-- ===== src/Import/Commits.antt =====
-- What Commit does with the importer and with the server.
use protonmail_go.Prelude.{
  ℕ, String, ◌≡◌, refl, subst, ◌∙◌, ap, sym, Bool, true, false, Option, none, some, [], ◌∷◌,
  StringMap, lookup, if-rule, arith,
}
use protonmail_go.Errors.{Error, sentinel, Sentinel}
use protonmail_go.Result.{Result, ok, err}
use protonmail_go.Client.{Config}
use protonmail_go.Transport.{Net, Wire}
use protonmail_go.Import.{
  Importer, ImportIo, ImportResult, commit, commit_closed, close_importer, judged, judge,
  missing_key,
}

-- Every key of the batch has been imported.
abbrev pub AllUploaded : StringMap Bool → Type 0
AllUploaded m = (key : String) → (b : Bool) → lookup key m ≡ some b → b ≡ true

missing_key-none : (io : ImportIo) (m : StringMap Bool) → missing_key io m ≡ none → AllUploaded m
unfolding lookup
missing_key-none io [] h key b e = cc
missing_key-none io ((k, true) ∷ rest) h key b e = ground (arith, missing_key-none io rest h key b)
missing_key-none io ((k, false) ∷ rest) h key b e = cc

module _ {W : Type 0} (io : ImportIo) (fuel : ℕ) (wire : Wire) (cfg : Config W) where
  -- What Commit of an importer gives.
  abbrev pub Commits : Importer → Option (Result ImportResult × Importer × Net W) → Type 0
  Commits imp none = Unit
  Commits imp (some (ok r, after, net)) =
      (imp.closed ≡ false) × (after.closed ≡ true) × AllUploaded imp.uploaded
  Commits imp (some (err e, after, net)) = after.closed ≡ true

  judge-Commits :
      (imp after : Importer) (o : Option String) (r : Result ImportResult) (net : Net W)
      → imp.closed ≡ false
      → after.closed ≡ true
      → (o ≡ none → AllUploaded imp.uploaded)
      → Commits imp (some (judge io fuel wire cfg o r, after, net))
  unfolding judge
  judge-Commits imp after (some key) r net c d all = d
  judge-Commits imp after none (ok res) net c d all = (c, d, all refl)
  judge-Commits imp after none (err e) net c d all = d

  judged-Commits :
      (imp after : Importer) (o : Option (Result ImportResult × Net W))
      → imp.closed ≡ false
      → after.closed ≡ true
      → after.uploaded ≡ imp.uploaded
      → Commits imp (judged io fuel wire cfg after o)
  unfolding judged
  judged-Commits imp after none c d same = tt
  judged-Commits imp after (some (r, net)) c d same =
      judge-Commits imp after (missing_key io after.uploaded) r net c d
        (λ h. subst AllUploaded same (missing_key-none io after.uploaded h))

  ended-Commits :
      (imp after : Importer) (net : Net W) (o : Option Error)
      → imp.closed ≡ false
      → after.closed ≡ true
      → after.uploaded ≡ imp.uploaded
      → Commits imp (commit_closed io fuel wire cfg net (o, after))
  unfolding commit_closed
  ended-Commits imp after net (some e) c d same = d
  ended-Commits imp after net none c d same = judged-Commits imp after _ c d same

  -- Commit leaves the importer closed; it succeeds only on an importer that was open and whose keys
  -- have all been imported.
  pub commit-Commits :
      (imp : Importer) (net : Net W) → Commits imp (commit io fuel wire cfg imp net)
  unfolding commit close_importer commit_closed
  commit-Commits imp net =
      if-rule (λ (x : Option Error × Importer). Commits imp (commit_closed io fuel wire cfg net x))
        imp.closed (λ c. c)
        (λ c.
          ended-Commits imp (record imp { closed = true }) net (io.end_body imp.parts) c refl refl)

  after-closed :
      (imp after : Importer) (r : Result ImportResult) (m : Net W)
      (o : Option (Result ImportResult × Importer × Net W))
      → Commits imp o
      → o ≡ some (r, after, m)
      → after.closed ≡ true
  after-closed imp after r m none k e = elim (none≢some e) [ ]
    where
      none≢some :
          ◌≡◌ {A = Option (Result ImportResult × Importer × Net W)} none (some (r, after, m)) → ⊥
      none≢some h = cc
  after-closed imp after r m (some (ok res, a, n)) (c, d, all) e =
      sym (ap (λ (i : Importer). i.closed) (third e)) ∙ d
    where
      third :
          ◌≡◌ {A = Option (Result ImportResult × Importer × Net W)}
            (some (ok res, a, n))
            (some (r, after, m))
          → a ≡ after
      third h = cc
  after-closed imp after r m (some (err x, a, n)) d e =
      sym (ap (λ (i : Importer). i.closed) (third e)) ∙ d
    where
      third :
          ◌≡◌ {A = Option (Result ImportResult × Importer × Net W)}
            (some (err x, a, n))
            (some (r, after, m))
          → a ≡ after
      third h = cc

  -- A second Commit returns ErrImporterClosed, whatever the first returned, and does nothing else.
  pub commit-commit :
      (imp after : Importer) (net m : Net W) (r : Result ImportResult)
      → commit io fuel wire cfg imp net ≡ some (r, after, m)
      → (n : Net W)
      → commit io fuel wire cfg after n ≡ some (err (sentinel Sentinel.importer_closed), after, n)
  unfolding commit close_importer commit_closed
  commit-commit imp after net m r e n =
      rw (after-closed imp after r m _ (commit-Commits imp net) e) refl
