-- ===== src/Transport/Redaction.antt =====
-- redactedHeaders of protonmail.go. `Get` and `Set` write the key "x-pm-uid" as "X-Pm-Uid".
use protonmail_go.Prelude.{
  String, ◌≡◌, refl, ◌∙◌, sym, ap, Bool, true, false, not, Option, some, List, [], ◌∷◌, lookup,
  lookup-insert, ◌==◌, eq_iff, if◌then◌else◌, Bool-cases, inl, inr,
}
use protonmail_go.Http.{Headers, set_header, get_header, first_value}

abbrev pub redacted : String
redacted = "[REDACTED]"

redact : String → Headers → Headers
redact k h = if not (get_header k h == "") then set_header k redacted h else h

unfoldable pub redacted_headers : Headers → Headers
unfolding redact
redacted_headers h = redact "X-Pm-Uid" (redact "X-Pm-Uid" (redact "Authorization" h))

-- A header's values, unless its first is to be hidden.
abbrev pub hidden : Option (List String) → Option (List String)
hidden o = if not (first_value o == "") then some (redacted ∷ []) else o

hidden-hidden : (o : Option (List String)) → hidden (hidden o) ≡ hidden o
hidden-hidden o = settled (not (first_value o == "")) refl
  where
    settled :
        (c : Bool)
        → not (first_value o == "") ≡ c
        → hidden (if c then some (redacted ∷ []) else o) ≡ (if c then some (redacted ∷ []) else o)
    settled true e = refl
    settled false e = rw e refl

lookup-set_header :
    (c : Bool) (k v key : String) (h : Headers)
    → lookup key (if c then set_header k v h else h)
      ≡ (if k == key then (if c then some (v ∷ []) else lookup k h) else lookup key h)
lookup-set_header true k v key h = lookup-insert k key (v ∷ []) h
lookup-set_header false k v key h = elim (Bool-cases (k == key)) [
  | inl e ↦ rw e (ap (λ j. lookup j h) (sym ((eq_iff k key).0 e)))
  | inr e ↦ rw e refl
]

lookup-redact :
    (k key : String) (h : Headers)
    → lookup key (redact k h) ≡ (if k == key then hidden (lookup k h) else lookup key h)
unfolding redact
lookup-redact k key h = lookup-set_header (not (get_header k h == "")) k redacted key h

-- The two headers with credentials are hidden, and the others are as they were.
abbrev pub Redacts : Headers → Headers → Type 0
Redacts h out =
    (lookup "Authorization" out ≡ hidden (lookup "Authorization" h))
    × (lookup "X-Pm-Uid" out ≡ hidden (lookup "X-Pm-Uid" h))
    × ((key : String)
        → ("Authorization" == key) ≡ false
        → ("X-Pm-Uid" == key) ≡ false
        → lookup key out ≡ lookup key h)

-- In the copy of redactedHeaders a header with credentials has the one value "[REDACTED]", unless its
-- first value is empty, and every other header is as it was.
pub redacted_headers-Redacts : (h : Headers) → Redacts h (redacted_headers h)
unfolding redacted_headers
redacted_headers-Redacts h = (
  lookup-redact "X-Pm-Uid" "Authorization" u
      ∙ lookup-redact "X-Pm-Uid" "Authorization" a
      ∙ lookup-redact "Authorization" "Authorization" h,
  lookup-redact "X-Pm-Uid" "X-Pm-Uid" u
      ∙ ap hidden (
          lookup-redact "X-Pm-Uid" "X-Pm-Uid" a
          ∙ ap hidden (lookup-redact "Authorization" "X-Pm-Uid" h))
      ∙ hidden-hidden (lookup "X-Pm-Uid" h),
  λ key p q. other "X-Pm-Uid" key u q ∙ other "X-Pm-Uid" key a q ∙ other "Authorization" key h p,
)
  where
    a : Headers
    a = redact "Authorization" h

    u : Headers
    u = redact "X-Pm-Uid" a

    other :
        (k key : String) (g : Headers) → (k == key) ≡ false → lookup key (redact k g) ≡ lookup key g
    other k key g e =
        lookup-redact k key g ∙ ap (λ c. if c then hidden (lookup k g) else lookup key g) e
