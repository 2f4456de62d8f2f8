-- ===== src/Sticky/RoundTrip.antt =====
-- internal/sticky/sticky.go: what a client that sends the cookie back is pinned to.
use go_lb.Base.{String, ◌≡◌, none, some, [], ◌∷◌, ◌++◌, arith, eq_iff, str_eq_refl}
use go_lb.Sticky.{Codec, IsBase64, Affinity, Cookies, cookie, from_request, set_cookie}

cookie-append :
    (name value : String) (before after : Cookies)
    → cookie before name ≡ none
    → cookie (before ++ (name, value) ∷ after) name ≡ some value
unfolding cookie
cookie-append name value [] after e = rw (str_eq_refl name)
cookie-append name value ((n, v) ∷ before) after e =
    ground (arith, cookie-append name value before after)

read_back :
    (codec : Codec) (a : Affinity) (cs : Cookies) (url : String)
    → cookie cs a.cookie_name ≡ some (codec.encode url)
    → codec.decode (codec.encode url) ≡ some url
    → (codec.encode url ≡ "" → url ≡ "")
    → from_request codec a cs ≡ url
unfolding from_request
read_back codec a cs url e d empty = ground (arith, eq_iff (codec.encode url) "")

-- A request whose first cookie of the affinity's name is the one that `SetCookie` wrote for a URL
-- is read back as that URL, whatever other cookies it carries before and after it.
pub from_request-set_cookie :
    (codec : Codec) (a : Affinity) (url : String) (before after : Cookies)
    → IsBase64 codec
    → cookie before a.cookie_name ≡ none
    → let c = set_cookie codec a url in
      from_request codec a (before ++ (c.name, c.value) ∷ after) ≡ url
unfolding set_cookie
from_request-set_cookie codec a url before after law e =
    read_back codec a _ url (cookie-append a.cookie_name (codec.encode url) before after e)
      (law.decode-encode url) (law.encode-empty url)
