-- ===== src/Messages/Query.antt =====
-- The query that a filter of messages becomes.
use protonmail_go.Prelude.{
  String, ◌≡◌, refl, ◌∙◌, Bool, true, false, ◌&&◌, not, Option, none, some, List, [], ◌∷◌, ℤ, pos,
  eqb_ℤ, contains, lookup, ◌==◌, lookup-insert, if◌then◌else◌, arith,
}
use protonmail_go.Text.{itoa}
use protonmail_go.Endpoint.{Values}
use protonmail_go.Messages.{MessageFilter, set_if, set_number, set_text, filter_values}

lookup-set_if :
    (given : Bool) (new value key : String) (v : Values)
    → lookup key (set_if given new value v)
      ≡ (if (new == key) && given then some value else lookup key v)
unfolding set_if
lookup-set_if true new value key v = ground (arith, lookup-insert new key value v)
lookup-set_if false new value key v = ground arith

-- Assignments, the latest first.
abbrev Assignments : Type 0
Assignments = List (Bool × String × String)

abbrev assign : Assignments → Values
assign [] = []
assign ((given, key, value) ∷ earlier) = set_if given key value (assign earlier)

abbrev told : Assignments → String → Option String
told [] key = none
told ((given, new, value) ∷ earlier) key =
    if (new == key) && given then some value else told earlier key

abbrev names : Assignments → List String
names [] = []
names ((given, new, value) ∷ earlier) = new ∷ names earlier

lookup-assign : (a : Assignments) (key : String) → lookup key (assign a) ≡ told a key
unfolding lookup
lookup-assign [] key = refl
lookup-assign ((given, new, value) ∷ earlier) key =
    ground (arith, lookup-set_if given new value key (assign earlier), lookup-assign earlier key)

told-unnamed : (a : Assignments) (key : String) → contains key (names a) ≡ false → told a key ≡ none
told-unnamed [] key h = refl
told-unnamed ((given, new, value) ∷ earlier) key h = ground (arith, told-unnamed earlier key)

abbrev assignments : MessageFilter → Assignments
assignments f =
    (not (f.external_id == ""), "ExternalID", f.external_id)
    ∷ (not (f.address_id == ""), "AddressID", f.address_id)
    ∷ (not (f.conversation == ""), "Conversation", f.conversation)
    ∷ (f.asc, "Desc", "0")
    ∷ (not (f.sort == ""), "Sort", f.sort)
    ∷ (not (f.label == ""), "Label", f.label)
    ∷ (not (eqb_ℤ f.limit (pos 0)), "Limit", itoa f.limit)
    ∷ (not (eqb_ℤ f.page_size (pos 0)), "PageSize", itoa f.page_size)
    ∷ (not (eqb_ℤ f.page (pos 0)), "Page", itoa f.page)
    ∷ []

filter_values-assign : (f : MessageFilter) → filter_values f ≡ assign (assignments f)
unfolding filter_values set_number set_text
filter_values-assign f = refl

abbrev pub query_keys : List String
query_keys =
    "ExternalID" ∷ "AddressID" ∷ "Conversation" ∷ "Desc" ∷ "Sort" ∷ "Label" ∷ "Limit" ∷ "PageSize"
    ∷ "Page" ∷ []

abbrev pub told_number : ℤ → Option String
told_number n = if not (eqb_ℤ n (pos 0)) then some (itoa n) else none

abbrev pub told_text : String → Option String
told_text s = if not (s == "") then some s else none

-- The value of each key of a query, and that there is no other key.
abbrev pub Tells : MessageFilter → Values → Type 0
Tells f v =
    (lookup "Page" v ≡ told_number f.page)
    × (lookup "PageSize" v ≡ told_number f.page_size)
    × (lookup "Limit" v ≡ told_number f.limit)
    × (lookup "Label" v ≡ told_text f.label)
    × (lookup "Sort" v ≡ told_text f.sort)
    × (lookup "Desc" v ≡ (if f.asc then some "0" else none))
    × (lookup "Conversation" v ≡ told_text f.conversation)
    × (lookup "AddressID" v ≡ told_text f.address_id)
    × (lookup "ExternalID" v ≡ told_text f.external_id)
    × ((key : String) → contains key query_keys ≡ false → lookup key v ≡ none)

-- The query of a filter has the filter's page, page size, limit, label, sort, conversation, address
-- and external ID under their keys, each unless it is zero, "Desc" as 0 if the order is to ascend,
-- and no other key: the other fields of a filter are not sent.
pub filter_values-Tells : (f : MessageFilter) → Tells f (filter_values f)
filter_values-Tells f = rw (filter_values-assign f) (
  lookup-assign a "Page",
  lookup-assign a "PageSize",
  lookup-assign a "Limit",
  lookup-assign a "Label",
  lookup-assign a "Sort",
  lookup-assign a "Desc",
  lookup-assign a "Conversation",
  lookup-assign a "AddressID",
  lookup-assign a "ExternalID",
  λ key h. lookup-assign a key ∙ told-unnamed a key h,
)
  where
    a : Assignments
    a = assignments f
