-- ===== src/Tests/Socks5Tests.antt =====
-- Runs of the SOCKS5 handshake.
use token_gate.Base.{ℕ, ◌≡◌, refl, false, none, some, List, [], ◌∷◌, ◌++◌, arith, pos}
use token_gate.NetAddress.{split_host_port, atoi, v4, v6, parse_ip}
use token_gate.Socks5.{Dialer, Conn, answer, socks5_connect_request, handshake}
use token_gate.Socks5.Grants.{
  by_ipv4, by_password, Grants, granted, with_incoming, handshake-Grants,
}
use token_gate.Text.{codes, is_empty, has_prefix, utf8}

split_v6 : split_host_port (codes "[::1]:443") ≡ some (codes "::1", codes "443")
unfolding split_host_port
split_v6 = refl

atoi_plus : atoi (codes "+80") ≡ some (pos 80)
unfolding atoi
atoi_plus = refl

ip_v6 :
    parse_ip (codes "2001:db8::1")
    ≡ some (v6 (0x20 ∷ 0x01 ∷ 0x0d ∷ 0xb8 ∷ 0 ∷ 0 ∷ 0 ∷ 0 ∷ 0 ∷ 0 ∷ 0 ∷ 0 ∷ 0 ∷ 0 ∷ 0 ∷ 1 ∷ []))
unfolding parse_ip has_prefix is_empty
ip_v6 = refl

ip_mapped : parse_ip (codes "::ffff:10.0.0.1") ≡ some (v4 (10 ∷ 0 ∷ 0 ∷ 1 ∷ []))
unfolding parse_ip has_prefix is_empty
ip_mapped = refl

ip_leading_zero : parse_ip (codes "10.0.0.01") ≡ none
unfolding parse_ip has_prefix is_empty
ip_leading_zero = refl

request_by_name :
    socks5_connect_request (codes "api.x:443")
    ≡ answer (5 ∷ 1 ∷ 0 ∷ 3 ∷ 5 ∷ 97 ∷ 112 ∷ 105 ∷ 46 ∷ 120 ∷ 1 ∷ 187 ∷ [])
unfolding socks5_connect_request
request_by_name = refl

abbrev dialer : Dialer
dialer = record { address = codes "10.0.0.1:1080"; username = codes "u"; password = codes "p" }

abbrev fresh_conn : Conn
fresh_conn = record { incoming = []; written = []; writes = 4; closed = false }

abbrev grant_bytes : List ℕ
grant_bytes = 5 ∷ 2 ∷ 1 ∷ 0 ∷ 5 ∷ 0 ∷ 0 ∷ 1 ∷ 127 ∷ 0 ∷ 0 ∷ 1 ∷ 4 ∷ 56 ∷ []

grant : Grants dialer grant_bytes
unfolding utf8
grant =
    granted (5 ∷ 2 ∷ 1 ∷ 0 ∷ []) 0 1 (127 ∷ 0 ∷ 0 ∷ 1 ∷ 4 ∷ 56 ∷ [])
      (by_password (omega arith) (omega arith))
      (by_ipv4 (127 ∷ 0 ∷ 0 ∷ 1 ∷ []) (4 ∷ 56 ∷ []) refl refl)

handshake-Grants_example :
    (c' : Conn) × (handshake dialer
        (codes "api.x:443")
        (with_incoming fresh_conn (grant_bytes ++ (22 ∷ 3 ∷ [])))
      ≡ (answer tt, with_incoming c' (22 ∷ 3 ∷ [])))
    × (c'.closed ≡ false)
handshake-Grants_example =
    handshake-Grants dialer (codes "api.x:443") fresh_conn
      (5 ∷ 1 ∷ 0 ∷ 3 ∷ 5 ∷ 97 ∷ 112 ∷ 105 ∷ 46 ∷ 120 ∷ 1 ∷ 187 ∷ []) grant_bytes (22 ∷ 3 ∷ [])
      request_by_name grant (omega arith)
