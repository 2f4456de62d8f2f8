-- ===== src/Sticky.antt =====
-- internal/sticky/sticky.go: session affinity by a cookie. Base64 and the rounding of a duration to
-- seconds are the standard library's, taken as parameters.
pub mod RoundTrip
use go_lb.Base.{
  String, ◌≡◌, Bool, true, false, Option, none, some, List, [], ◌∷◌, str_eq, if◌then◌else◌,
}
use go_lb.Base.Int.{ℤ, pos, ltb_ℤ}

-- `base64.RawURLEncoding`, and `int(math.Ceil(ttl.Seconds()))` of a duration in nanoseconds.
pub record Codec : Type 0 where
  pub encode : String → String
  pub decode : String → Option String
  pub ceil_seconds : ℤ → ℤ

-- `DecodeString` undoes `EncodeToString`, and only the empty text has an empty encoding.
pub record IsBase64 (c : Codec) : Type 0 where
  pub decode-encode : (s : String) → c.decode (c.encode s) ≡ some s
  pub encode-empty : (s : String) → c.encode s ≡ "" → s ≡ ""

pub record Affinity : Type 0 where
  pub cookie_name : String
  pub ttl : ℤ
  pub secure : Bool

abbrev pub Setting : Type 0
Setting = Affinity → Affinity

abbrev pub with_secure : Bool → Setting
with_secure secure a = record a { secure = secure }

apply_options : List Setting → Affinity → Affinity
apply_options [] a = a
apply_options (o ∷ os) a = apply_options os (o a)

unfoldable pub new : String → ℤ → List Setting → Affinity
unfolding apply_options
new cookie_name ttl opts =
    apply_options opts (record { cookie_name = cookie_name; ttl = ttl; secure = false })

-- `http.Cookie`, as far as the code sets it.
pub record Cookie : Type 0 where
  pub name : String
  pub value : String
  pub path : String
  pub max_age : ℤ
  pub http_only : Bool
  pub secure : Bool
  pub same_site_lax : Bool

-- The cookies of a request: names and values. `r.Cookie` gives the first with the name.
abbrev pub Cookies : Type 0
Cookies = List (String × String)

unfoldable pub cookie : Cookies → String → Option String
cookie [] name = none
cookie ((n, v) ∷ cs) name = if str_eq n name then some v else cookie cs name

module _ (codec : Codec) where
  unfoldable pub max_age : ℤ → ℤ
  max_age ttl = let s = codec.ceil_seconds ttl in if ltb_ℤ s (pos 1) then pos 1 else s

  unfoldable pub from_request : Affinity → Cookies → String
  from_request a cs = elim (cookie cs a.cookie_name) [
    | none ↦ ""
    | some value ↦
        if str_eq value "" then "" else elim (codec.decode value) [ none ↦ "" | some raw ↦ raw ]
  ]

  -- The cookie that `SetCookie` adds to the response.
  unfoldable pub set_cookie : Affinity → String → Cookie
  unfolding max_age
  set_cookie a backend_url = record {
    name = a.cookie_name;
    value = codec.encode backend_url;
    path = "/";
    max_age = max_age a.ttl;
    http_only = true;
    secure = a.secure;
    same_site_lax = true;
  }
