-- ===== src/Webhooks/Target.antt =====
-- src/webhooks/target.rs: which webhook URLs an app may give. The parser of URLs is a library.
use gum_server.Prelude.{
  ℕ, ◌+◌, ◌*◌, ◌/◌, ◌%◌, ◌^◌, String, Bool, true, false, ◌&&◌, ◌||◌, not, Option, List, [], ◌∷◌,
  ◌==◌, str_eq, leb, if◌then◌else◌, any, is_some,
}
use gum_server.Prelude.Ascii.{codes, lower, byte_length}
use gum_server.Prelude.Refusals.{Checked, ok, refuse, ◌>>=◌, ◌>>◌, ensure, or_refuse}

-- An IPv4 address by its four octets, an IPv6 one by its eight segments, as one number each.
pub data Host : Type 0 where
  ipv4 : ℕ → ℕ → ℕ → ℕ → Host
  ipv6 : ℕ → Host
  domain : String → Host

-- What is read of a parsed URL, and the URL as text.
pub record Url : Type 0 where
  pub username : String
  pub password : Option String
  pub scheme : String
  pub host : Option Host
  pub text : String

-- `is_private`, `is_loopback`, `is_link_local`, `is_broadcast`, `is_unspecified` (in 0.0.0.0/8),
-- `is_documentation`, CGNAT.
unfoldable pub is_public_v4 : ℕ → ℕ → ℕ → ℕ → Bool
is_public_v4 a b c d = not (
    (a == 10 || (a == 172 && (leb 16 b && leb b 31)) || (a == 192 && b == 168))
    || a == 127
    || (a == 169 && b == 254)
    || (a == 255 && b == 255 && c == 255 && d == 255)
    || (a == 192 && b == 0 && c == 2)
    || (a == 198 && b == 51 && c == 100)
    || (a == 203 && b == 0 && c == 113)
    || (a == 100 && (leb 64 b && leb b 127))
    || a == 0)

-- `to_ipv4_mapped`, ::ffff:0:0/96
unfoldable pub is_public_mapped : ℕ → Bool
unfolding is_public_v4
is_public_mapped n = is_public_v4 (n / 2 ^ 24 % 256) (n / 2 ^ 16 % 256) (n / 256 % 256) (n % 256)

-- Loopback, unspecified, fc00::/7, fe80::/10, and the IPv4 addresses that are mapped; ::ffff:127.0.0.1 is
-- one of these.
unfoldable pub is_public_v6 : ℕ → Bool
unfolding is_public_mapped
is_public_v6 n = not (
    n == 1
    || n == 0
    || n / 2 ^ 121 == 126
    || n / 2 ^ 118 == 1018
    || n == 65535 * 2 ^ 32 + 2130706433
    || (n / 2 ^ 32 == 65535 && not (is_public_mapped n)))

abbrev starts : List ℕ → List ℕ → Bool
starts [] s = true
starts (p ∷ ps) [] = false
starts (p ∷ ps) (c ∷ cs) = p == c && starts ps cs

abbrev same_codes : List ℕ → List ℕ → Bool
same_codes [] [] = true
same_codes (p ∷ ps) (c ∷ cs) = p == c && same_codes ps cs
same_codes ps cs = false

-- `ends_with`: some end of the text is the suffix.
unfoldable pub ends_with : List ℕ → List ℕ → Bool
ends_with suffix [] = same_codes suffix []
ends_with suffix (c ∷ cs) = same_codes suffix (c ∷ cs) || ends_with suffix cs

unfoldable pub is_local : String → Bool
unfolding lower ends_with
is_local d =
    str_eq (lower d) "localhost"
    || ends_with (codes ".localhost") (codes d)
    || ends_with (codes ".internal") (codes d)
    || ends_with (codes ".local") (codes d)
    || not (any (λ c. c == 46) (codes d))

unfoldable pub is_public_host : Host → Bool
unfolding is_public_v4 is_public_v6 is_local
is_public_host (ipv4 a b c d) = is_public_v4 a b c d
is_public_host (ipv6 n) = is_public_v6 n
is_public_host (domain d) = not (is_local d)

unfoldable pub check_scheme : String → Bool → Checked (Unit {0})
check_scheme scheme allow_insecure =
    if str_eq scheme "https"
    then ok tt
    else if str_eq scheme "http"
    then (if allow_insecure then ok tt else refuse "webhook_url must use https")
    else refuse "unsupported scheme"

-- `validate`
unfoldable pub validate_target : (String → Option Url) → String → Bool → Checked Url
unfolding check_scheme is_public_host byte_length
validate_target parse_url raw allow_insecure = do
  ensure (leb (byte_length raw) 2048) "URL is longer than 2048 characters"
  url ← or_refuse (parse_url raw) "not a valid URL"
  ensure (str_eq url.username "" && not (is_some url.password))
      "credentials in the URL are not allowed"
  check_scheme url.scheme allow_insecure
  host ← or_refuse url.host "URL has no host"
  ensure (allow_insecure || is_public_host host) "webhook_url must be a public address"
  ok url
