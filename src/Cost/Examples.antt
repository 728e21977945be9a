-- ===== src/Cost/Examples.antt =====
-- A gate of concrete header names.
use az_agent_platform_go.Prelude.{
  ◌≡◌, refl, true, List, [], ◌∷◌, GoString, codes, ok, err, str_eq, contains, lookup, insert,
}
use az_agent_platform_go.Cost.Headers.{
  HeaderNames, Attribution, new_headers, is_token, access, apply, is_reserved_header, invalid_names,
}
use az_agent_platform_go.Cost.Untouched.{access-reserved}

-- Every name is in canonical form.
abbrev canonical : GoString → GoString
canonical s = s

abbrev names : HeaderNames
names = record {
  tenant = codes "X-Tenant";
  principal = [];
  conversation = [];
  run = codes "X-Run";
  journey = [];
  profile = codes "X-Profile";
}

abbrev attribution : Attribution
attribution = record {
  tenant = codes "t1";
  principal = codes "p";
  conversation = codes "c";
  run = 10 ∷ codes "r";
  journey = [];
}

abbrev headers : List (GoString × GoString)
headers = (codes "Cookie", codes "k") ∷ (codes "X-Run", codes "old") ∷ []

valid : new_headers canonical names ≡ ok names
unfolding new_headers is_token contains str_eq
valid = refl

reserved_name : new_headers canonical (record names { tenant = codes "Cookie" }) ≡ err invalid_names
unfolding new_headers is_token contains str_eq
reserved_name = refl

-- A value with a control character is not sent, and the header is removed.
applied :
    apply canonical (access names attribution (codes "low")) headers
    ≡ (codes "Cookie", codes "k")
      ∷ (codes "X-Tenant", codes "t1")
      ∷ (codes "X-Profile", codes "low")
      ∷ []
unfolding apply access insert str_eq
applied = refl

cookie_is_reserved : is_reserved_header (codes "Cookie") ≡ true
unfolding contains str_eq
cookie_is_reserved = refl

access-reserved_example :
    lookup (codes "Cookie") (apply canonical (access names attribution (codes "low")) headers)
    ≡ lookup (codes "Cookie") headers
access-reserved_example =
    access-reserved canonical names names attribution (codes "low") (codes "Cookie") headers
      (λ s. refl) valid cookie_is_reserved
