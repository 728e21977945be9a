-- ===== src/Cost/Headers.antt =====
-- internal/cost/headers.go and access.go: the names of the attribution headers, the values that a gate
-- gives them, and what that does to the headers of a request. The canonical form of a header name is
-- net/http's, a parameter.
use az_agent_platform_go.Prelude.{
  ℕ, Bool, not, ◌&&◌, ◌||◌, List, [], ◌∷◌, GoString, codes, str_eq, is_empty, contains, ltb, leb,
  ◌==◌, anyb, allb, insert, if◌then◌else◌, Result, ok, fail_if, ◌>>=◌, ◌>>◌,
}

pub record HeaderNames : Type 0 where
  pub tenant : GoString
  pub principal : GoString
  pub conversation : GoString
  pub run : GoString
  pub journey : GoString
  pub profile : GoString

pub data NamesError : Type 0 where
  invalid_names : NamesError

-- reserved
abbrev pub reserved : List GoString
reserved =
    codes "Host"
    ∷ codes "Content-Length"
    ∷ codes "Content-Type"
    ∷ codes "Transfer-Encoding"
    ∷ codes "Connection"
    ∷ codes "Accept"
    ∷ codes "Mcp-Session-Id"
    ∷ codes "Mcp-Protocol-Version"
    ∷ codes "Last-Event-Id"
    ∷ codes "Traceparent"
    ∷ codes "Tracestate"
    ∷ codes "Authorization"
    ∷ codes "Proxy-Authorization"
    ∷ codes "Cookie"
    ∷ codes "Api-Key"
    ∷ codes "X-Api-Key"
    ∷ []

abbrev pub is_between : ℕ → ℕ → ℕ → Bool
is_between low high c = leb low c && leb c high

abbrev pub is_token_byte : ℕ → Bool
is_token_byte c =
    is_between 97 122 c
    || is_between 65 90 c
    || is_between 48 57 c
    || anyb (λ (d : ℕ). d == c) (codes "!#$%&'*+-.^_`|~")

-- isToken
unfoldable pub is_token : GoString → Bool
is_token s = not (is_empty s) && allb is_token_byte s

-- hasControl
unfoldable pub has_control : GoString → Bool
has_control s = anyb (λ (c : ℕ). ltb c 32 || c == 127) s

abbrev pub is_reserved_header : GoString → Bool
is_reserved_header name = contains reserved name

abbrev pub normalize_name :
    (GoString → GoString) → GoString → List GoString → Result NamesError (GoString × List GoString)
normalize_name canonical [] seen = ok ([], seen)
normalize_name canonical (b ∷ bs) seen =
    fail_if (not (is_token (b ∷ bs))) invalid_names
    >> (fail_if (is_reserved_header (canonical (b ∷ bs))) invalid_names
        >> (fail_if (contains seen (canonical (b ∷ bs))) invalid_names
            >> ok (canonical (b ∷ bs), canonical (b ∷ bs) ∷ seen)))

-- normalize
unfoldable pub normalize : (GoString → GoString) → HeaderNames → Result NamesError HeaderNames
unfolding is_token
normalize canonical n = normalize_name canonical n.tenant [] >>= λ t.
    normalize_name canonical n.principal t.1 >>= λ p.
    normalize_name canonical n.conversation p.1 >>= λ c. normalize_name canonical n.run c.1 >>= λ r.
    normalize_name canonical n.journey r.1 >>= λ j. normalize_name canonical n.profile j.1 >>= λ f.
    ok (record {
      tenant = t.0;
      principal = p.0;
      conversation = c.0;
      run = r.0;
      journey = j.0;
      profile = f.0;
    })

-- NewHeaders; the gate is its names.
unfoldable pub new_headers : (GoString → GoString) → HeaderNames → Result NamesError HeaderNames
unfolding normalize
new_headers canonical names = normalize canonical names

pub record Attribution : Type 0 where
  pub tenant : GoString
  pub principal : GoString
  pub conversation : GoString
  pub run : GoString
  pub journey : GoString

abbrev pub fields : HeaderNames → Attribution → GoString → List (GoString × GoString)
fields names a profile =
    (names.tenant, a.tenant)
    ∷ (names.principal, a.principal)
    ∷ (names.conversation, a.conversation)
    ∷ (names.run, a.run)
    ∷ (names.journey, a.journey)
    ∷ (names.profile, profile)
    ∷ []

abbrev pub set_field : GoString → GoString → List (GoString × GoString) → List (GoString × GoString)
set_field [] value set = set
set_field (b ∷ bs) value set = insert (b ∷ bs) (if has_control value then [] else value) set

abbrev pub set_fields :
    List (GoString × GoString) → List (GoString × GoString) → List (GoString × GoString)
set_fields [] set = set
set_fields ((name, value) ∷ rest) set = set_fields rest (set_field name value set)

-- Access, of the gate with these names: the headers to set, or to remove where the value is empty.
unfoldable pub access : HeaderNames → Attribution → GoString → List (GoString × GoString)
unfolding has_control
access names a profile = set_fields (fields names a profile) []

-- Header.Del
unfoldable pub delete : GoString → List (GoString × GoString) → List (GoString × GoString)
delete name [] = []
delete name ((first, value) ∷ headers) =
    let rest = delete name headers in if str_eq first name then rest else (first, value) ∷ rest

abbrev pub apply_one :
    (GoString → GoString)
    → GoString
    → GoString
    → List (GoString × GoString)
    → List (GoString × GoString)
apply_one canonical name [] headers = delete (canonical name) headers
apply_one canonical name (c ∷ cs) headers = insert (canonical name) (c ∷ cs) headers

-- Apply, to the headers of a request by their canonical names, with one value each.
unfoldable pub apply :
    (GoString → GoString)
    → List (GoString × GoString)
    → List (GoString × GoString)
    → List (GoString × GoString)
unfolding delete
apply canonical [] headers = headers
apply canonical ((name, value) ∷ set) headers =
    apply canonical set (apply_one canonical name value headers)
