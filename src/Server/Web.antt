-- ===== src/Server/Web.antt =====
-- internal/server/web_support.go: what the handlers share. A request is what the handlers read of
-- it; its form is `none` if ParseForm fails, and lists its values in order.
pub mod ClientAddress
use agentless_monitoring.Common.{
  ℕ, ◌+◌, ◌*◌, Bool, true, false, not, ◌&&◌, ◌||◌, List, [], ◌∷◌, ◌++◌, reverse, Option, none, some,
  Bytes, codes, split, trim_space, Result, ok, err, ltb, ◌==◌, if◌then◌else◌, length, keep, any,
  map,
}
use agentless_monitoring.Common.Base64.{raw_url_encode}
use agentless_monitoring.Common.Int.{ℤ, pos, negsuc}
use agentless_monitoring.Net.{Addr, bytes_eq}
use agentless_monitoring.Net.Prefixes.{Prefix, contains}

pub record Request : Type 0 where
  pub path : Bytes
  pub remote_addr : Bytes
  pub cookies : List (Bytes × Bytes)
  pub forwarded_for : List Bytes
  pub form : Option (List (Bytes × Bytes))
  pub query : List (Bytes × Bytes)
  pub id : Bytes

-- http.Cookie, as far as two cookies of the program differ: all have the path "/", and are HttpOnly
-- and SameSite=Strict.
pub record Cookie : Type 0 where
  pub name : Bytes
  pub value : Bytes
  pub max_age : ℤ
  pub secure : Bool

abbrev named : Bytes → Bytes × Bytes → Bool
named key entry = bytes_eq entry.0 key

abbrev pub values_of : Bytes → List (Bytes × Bytes) → List Bytes
values_of key entries = map (λ (e : Bytes × Bytes). e.1) (keep (named key) entries)

abbrev pub first_or_empty : List Bytes → Bytes
first_or_empty [] = []
first_or_empty (v ∷ vs) = v

-- r.FormValue
abbrev pub form_value : Bytes → List (Bytes × Bytes) → Bytes
form_value key form = first_or_empty (values_of key form)

abbrev first_of : List Bytes → Option Bytes
first_of [] = none
first_of (v ∷ vs) = some v

-- r.Cookie
abbrev pub cookie : Bytes → Request → Option Bytes
cookie name r = first_of (values_of name r.cookies)

abbrev pub session_cookie_name : Bool → Bytes
session_cookie_name true = codes "__Host-agentless_monitoring_session"
session_cookie_name false = codes "agentless_monitoring_session"

abbrev pub form_csrf_cookie_name : Bool → Bytes
form_csrf_cookie_name true = codes "__Host-agentless_monitoring_form_csrf"
form_csrf_cookie_name false = codes "agentless_monitoring_form_csrf"

-- The session cookie lives for the whole seconds that are left of the session.
abbrev pub set_session_cookie : Bool → Bytes → ℕ → Cookie
set_session_cookie secure token seconds = record {
  name = session_cookie_name secure;
  value = token;
  max_age = pos seconds;
  secure = secure;
}

abbrev pub set_form_cookie : Bool → Bytes → Cookie
set_form_cookie secure token = record {
  name = form_csrf_cookie_name secure;
  value = token;
  max_age = pos (10 * 60);
  secure = secure;
}

abbrev pub clear_cookie : Bytes → Bool → Cookie
clear_cookie name secure = record { name = name; value = []; max_age = negsuc 0; secure = secure }

-- randomWebToken, for the bytes that rand.Read gives.
abbrev pub random_web_token : Option Bytes → Option Bytes
random_web_token none = none
random_web_token (some bytes) = some (raw_url_encode bytes)

unfoldable pub tokens_equal : Bytes → Bytes → Bool
tokens_equal first second =
    if not (length first == length second) || length first == 0
    then false
    else bytes_eq first second

abbrev csrf_matches : Option Bytes → List (Bytes × Bytes) → Bool
csrf_matches none form = false
csrf_matches (some value) form = tokens_equal value (form_value (codes "csrf_token") form)

-- validateFormCSRF, on a form that parsed.
unfoldable pub validate_form_csrf : Bool → Request → List (Bytes × Bytes) → Bool
unfolding tokens_equal
validate_form_csrf secure r form = csrf_matches (cookie (form_csrf_cookie_name secure) r) form

-- isTrustedProxy
abbrev pub is_trusted_proxy : List Prefix → Addr → Bool
is_trusted_proxy proxies address = any (λ p. contains p address) proxies

abbrev host_of : Bytes → Option (Bytes × Bytes) → Bytes
host_of remote none = remote
host_of remote (some parts) = parts.0

-- The host of the peer's address, for net.SplitHostPort.
abbrev pub peer_host : (Bytes → Option (Bytes × Bytes)) → Request → Bytes
peer_host split_host_port r = host_of r.remote_addr (split_host_port r.remote_addr)

module _ (split_host_port : Bytes → Option (Bytes × Bytes)) (parse_addr : Bytes → Option Addr)
    (addr_string : Addr → Bytes) (proxies : List Prefix) where
  -- The loop of clientAddress, over the entries from the last to the first.
  unfoldable pub rightmost : Addr → List Bytes → Bytes
  rightmost peer [] = addr_string peer
  rightmost peer (entry ∷ entries) =
      let earlier = rightmost peer entries in
      elim (parse_addr (trim_space entry)) [
        | none ↦ addr_string peer
        | some address ↦ if is_trusted_proxy proxies address then earlier else addr_string address
      ]

  -- clientAddress. Header.Get reads the first line of a header, and gives the empty text for none.
  unfoldable pub client_address : Request → Bytes
  unfolding rightmost
  client_address r =
      let host = peer_host split_host_port r in
      elim (parse_addr host) [
        | none ↦ host
        | some peer ↦
            if is_trusted_proxy proxies peer
            then rightmost peer (reverse (split 44 (first_or_empty r.forwarded_for)))
            else host
      ]
