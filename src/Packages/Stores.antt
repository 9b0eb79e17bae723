-- ===== src/Packages/Stores.antt =====
-- The loops over a map of session keys in messages.go: what each makes of a key is stored under the
-- key's name, in a new map.
use protonmail_go.Prelude.{
  suc, String, ◌≡◌, refl, sym, ◌∙◌, ap, subst, true, false, Option, none, some, [], ◌∷◌, StringMap,
  lookup, insert, lookup-insert, keys, count, IsMap, one_if, is_some, if◌then◌else◌, arith, ◌==◌,
  Bool-cases, ◌⊎◌, inl, inr, eq_iff,
}
use protonmail_go.Result.{Result, ok, ◌>>=◌, ok-injective, Result-cases}

pub some-injective : {A : Type 0} {a b : A} → some a ≡ some b → a ≡ b
some-injective e = cc

-- What is found once a value was inserted: that value under its name, or what was there.
pub found :
    {V : Type 0} (new name : String) (v w : V) (m : StringMap V)
    → lookup name (insert new v m) ≡ some w
    → ((new ≡ name) × (v ≡ w)) ⊎ (lookup name m ≡ some w)
found new name v w m e =
    let q = sym (lookup-insert new name v m) ∙ e in
    elim (Bool-cases (new == name)) [
      | inl b ↦ inl ((eq_iff new name).0 b, some-injective (rw b at q))
      | inr b ↦ inr (rw b at q)
    ]

module _ {K V : Type 0} (make : K → Result V) where
  abbrev pub store_all : StringMap K → StringMap V → Result (StringMap V)
  store_all [] done = ok done
  store_all ((name, k) ∷ rest) done = make k >>= λ v. store_all rest (insert name v done)

  -- The value of a name: the one that is made of its key, or none.
  abbrev pub IsMadeOf : Option K → Option V → Type 0
  IsMadeOf none found = found ≡ none
  IsMadeOf (some k) found = (v : V) × (make k ≡ ok v) × (found ≡ some v)

  lookup-cons :
      (name a : String) (k : K) (rest : StringMap K)
      → lookup name ((a, k) ∷ rest) ≡ (if a == name then some k else lookup name rest)
  unfolding lookup
  lookup-cons name a k rest = ground arith

  once :
      (a name : String) (rest : StringMap K)
      → (if a == name then suc (count name (keys rest)) else count name (keys rest)) ≡ 1
      → (a == name) ≡ true
      → count name (keys rest) ≡ 0
  once a name rest c same = ground arith

  others :
      (a name : String) (rest : StringMap K)
      → (a == name) ≡ false
      → count name (keys rest)
        ≡ (if a == name then suc (count name (keys rest)) else count name (keys rest))
  others a name rest differ = ground arith

  store_all-other :
      (session : StringMap K) (done made : StringMap V) (name : String)
      → store_all session done ≡ ok made
      → count name (keys session) ≡ 0
      → lookup name made ≡ lookup name done
  store_all-other [] done made name h c = ap (lookup name) (sym (ok-injective h))
  store_all-other ((a, k) ∷ rest) done made name h c = elim (Result-cases (make k)) [
    | inl (v, e) ↦
        let other : (a == name) ≡ false = ground arith in
        store_all-other rest (insert a v done) made name (rw e at h) (ground arith)
        ∙ lookup-insert a name v done
        ∙ ap (λ b. if b then some v else lookup name done) other
    | inr (x, e) ↦ absurd (ground arith)
  ]

  store_all-finds :
      (session : StringMap K) (done made : StringMap V) (name : String)
      → store_all session done ≡ ok made
      → count name (keys session) ≡ one_if (is_some (lookup name session))
      → lookup name done ≡ none
      → IsMadeOf (lookup name session) (lookup name made)
  unfolding lookup
  store_all-finds [] done made name h c d =
      subst (IsMadeOf none) (sym (ap (lookup name) (sym (ok-injective h)) ∙ d)) refl
  store_all-finds ((a, k) ∷ rest) done made name h c d = elim (Result-cases (make k)) [
    | inr (x, e) ↦ absurd (ground arith)
    | inl (v, e) ↦ elim (Bool-cases (a == name)) [
      | inl same ↦
          let found : lookup name ((a, k) ∷ rest) ≡ some k =
            lookup-cons name a k rest ∙ ap (λ b. if b then some k else lookup name rest) same in
          let last : count name (keys rest) ≡ 0 =
            once a name rest (c ∙ ap (λ o. one_if (is_some o)) found) same in
          rw found (
            v,
            e,
            store_all-other rest (insert a v done) made name (rw e at h) last
                ∙ lookup-insert a name v done
                ∙ ap (λ b. if b then some v else lookup name done) same,
          )
      | inr differ ↦
          let skipped : lookup name ((a, k) ∷ rest) ≡ lookup name rest =
            lookup-cons name a k rest ∙ ap (λ b. if b then some k else lookup name rest) differ in
          rw skipped (
            store_all-finds rest (insert a v done) made name (rw e at h)
              (others a name rest differ ∙ c ∙ ap (λ o. one_if (is_some o)) skipped)
              (lookup-insert a name v done
                ∙ ap (λ b. if b then some v else lookup name done) differ
                ∙ d))
    ]
  ]

  -- The new map has under every name of the keys what is made of its key, and nothing else.
  pub store_all-IsMadeOf :
      (session : StringMap K) (made : StringMap V)
      → IsMap session
      → store_all session [] ≡ ok made
      → (name : String) → IsMadeOf (lookup name session) (lookup name made)
  store_all-IsMadeOf session made m h name =
      store_all-finds session [] made name h (m name) (unfold lookup in refl)

  -- Whatever is stored was made of some key.
  abbrev pub AllMade : StringMap V → Type 0
  AllMade m = (name : String) (v : V) → lookup name m ≡ some v → (k : K) × (make k ≡ ok v)

  insert-AllMade :
      (a : String) (k : K) (v : V) (m : StringMap V)
      → make k ≡ ok v
      → AllMade m
      → AllMade (insert a v m)
  insert-AllMade a k v m e h name w q = elim (found a name v w m q) [
    | inl (here, same) ↦ (k, e ∙ ap (λ x. ok x) same)
    | inr before ↦ h name w before
  ]

  store_all-AllMade :
      (session : StringMap K) (done made : StringMap V)
      → store_all session done ≡ ok made
      → AllMade done
      → AllMade made
  store_all-AllMade [] done made h all = subst AllMade (ok-injective h) all
  store_all-AllMade ((a, k) ∷ rest) done made h all = elim (Result-cases (make k)) [
    | inl (v, e) ↦
        store_all-AllMade rest (insert a v done) made (rw e at h) (insert-AllMade a k v done e all)
    | inr (x, e) ↦ absurd (ground arith)
  ]

  pub new_map-AllMade :
      (session : StringMap K) (made : StringMap V) → store_all session [] ≡ ok made → AllMade made
  unfolding lookup
  new_map-AllMade session made h = store_all-AllMade session [] made h (λ name v e. cc)
