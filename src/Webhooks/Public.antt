-- ===== src/Webhooks/Public.antt =====
-- src/webhooks/target.rs: an app's URL cannot point at a private network.
use gum_server.Prelude.{ℕ, ◌≡◌, true, false, ◌&&◌, str_eq, leb, any, ◌==◌, ◌/◌, ◌^◌, ◌%◌, ◌⊎◌}
use gum_server.Prelude.Ascii.{codes, lower}
use gum_server.Webhooks.Target.{Host, ipv4, ipv6, domain, ends_with}

-- An IPv4 address in none of the private, loopback, unspecified, link-local, shared, broadcast and
-- documentation ranges; an IPv6 one that is neither ::1, ::, nor in fc00::/7 or fe80::/10, nor maps an IPv4
-- address of these ranges; a name that is not localhost, not in .localhost, .internal or .local, and has
-- more than one label.
abbrev OutOfReach4 : ℕ → ℕ → ℕ → ℕ → Type 0
OutOfReach4 a b c d =
    ((a == 10) ≡ false)
    × ((a == 127) ≡ false)
    × ((a == 0) ≡ false)
    × ((a == 172 && (leb 16 b && leb b 31)) ≡ false)
    × ((a == 192 && b == 168) ≡ false)
    × ((a == 169 && b == 254) ≡ false)
    × ((a == 100 && (leb 64 b && leb b 127)) ≡ false)
    × ((a == 255 && b == 255 && c == 255 && d == 255) ≡ false)
    × ((a == 192 && b == 0 && c == 2) ≡ false)
    × ((a == 198 && b == 51 && c == 100) ≡ false)
    × ((a == 203 && b == 0 && c == 113) ≡ false)

abbrev pub OutOfReach : Host → Type 0
OutOfReach (ipv4 a b c d) = OutOfReach4 a b c d
OutOfReach (ipv6 n) =
    ((n == 1) ≡ false)
    × ((n == 0) ≡ false)
    × ((n / 2 ^ 121 == 126) ≡ false)
    × ((n / 2 ^ 118 == 1018) ≡ false)
    × (((n / 2 ^ 32 == 65535) ≡ false)
        ⊎ OutOfReach4 (n / 2 ^ 24 % 256) (n / 2 ^ 16 % 256) (n / 256 % 256) (n % 256))
OutOfReach (domain d) =
    (str_eq (lower d) "localhost" ≡ false)
    × (ends_with (codes ".localhost") (codes d) ≡ false)
    × (ends_with (codes ".internal") (codes d) ≡ false)
    × (ends_with (codes ".local") (codes d) ≡ false)
    × (any (λ c. c == 46) (codes d) ≡ true)
