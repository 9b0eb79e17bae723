-- ===== src/Http.antt =====
-- What protonmail.go uses of net/http: headers, requests, responses and the client's `Do`.
use protonmail_go.Prelude.{
  ℕ, String, Bool, true, Option, none, some, List, [], ◌∷◌, StringMap, lookup, insert, is_some,
}
use protonmail_go.Errors.{Error}

abbrev pub Bytes : Type 0
Bytes = List ℕ

-- `http.Header`: canonical keys, several values each.
abbrev pub Headers : Type 0
Headers = StringMap (List String)

-- `h.Set(k, v)` at a canonical key
abbrev pub set_header : String → String → Headers → Headers
set_header k v h = insert k (v ∷ []) h

-- `_, ok := h[k]`
abbrev pub has_header : String → Headers → Bool
has_header k h = is_some (lookup k h)

-- `h.Get(k)`: the first value, or the empty text
abbrev pub first_value : Option (List String) → String
first_value none = ""
first_value (some []) = ""
first_value (some (v ∷ vs)) = v

abbrev pub get_header : String → Headers → String
get_header k h = first_value (lookup k h)

-- A request's body: none, or the bytes not yet read and those that `GetBody` gives, if it is set.
pub data Body : Type 0 where
  no_body : Body
  stream : Bytes → Option Bytes → Body

-- Sending a request reads its body to the end.
abbrev pub consumed : Body → Body
consumed no_body = no_body
consumed (stream unread again) = stream [] again

-- `req.Body == nil || req.GetBody != nil`
abbrev pub is_replayable : Body → Bool
is_replayable no_body = true
is_replayable (stream unread again) = is_some again

-- `req.Body, _ = req.GetBody()`, if there is a body; `GetBody` does not fail for a byte reader
abbrev pub rewound : Body → Body
rewound no_body = no_body
rewound (stream unread none) = stream unread none
rewound (stream unread (some bytes)) = stream bytes (some bytes)

pub record Request : Type 0 where
  pub method : String
  pub url : String
  pub path : String
  pub headers : Headers
  pub body : Body

-- `body` is what can be read before the end of the stream or a read error.
pub record Response : Type 0 where
  pub status_code : ℕ
  pub status : String
  pub body : Bytes

-- What `(*http.Client).Do` returns: a response, whose body is then open, or a transport error.
pub data Reply : Type 0 where
  replied : Response → Reply
  failed : Error → Reply

-- An HTTP client and the network behind it, as a function of the state `W` of the outside world.
abbrev pub HttpClient : Type 0 → Type 0
HttpClient W = W → Request → Reply × W
