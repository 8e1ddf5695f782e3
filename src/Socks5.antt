-- ===== src/Socks5.antt =====
-- internal/proxy/socks5.go: the SOCKS5 handshake as a function of the bytes that the proxy sends.
-- A connection holds the bytes still to be read and those written; a write fails once the number of
-- writes that succeed is spent. Deadlines are not modelled.
pub mod Grants
use token_gate.Base.{
  ℕ, zero, suc, ◌+◌, ◌/◌, ◌%◌, Bool, true, not, ◌&&◌, ◌||◌, Option, none, some, List, [], ◌∷◌, ◌++◌,
  ltb, ◌==◌, if◌then◌else◌, length, pos,
}
use token_gate.NetAddress.{split_host_port, atoi, v4, v6, parse_ip}
use token_gate.Text.{Text, codes, text_eq, is_empty, trim_space, utf8}

pub record Dialer : Type 0 where
  pub address : Text
  pub username : Text
  pub password : Text

pub record Conn : Type 0 where
  pub incoming : List ℕ
  pub written : List ℕ
  pub writes : ℕ
  pub closed : Bool

pub data Socks5Error : Type 0 where
  unsupported_network : Text → Socks5Error
  dial_failed write_failed unexpected_eof : Socks5Error
  invalid_greeting rejected_methods : Socks5Error
  credentials_too_long authentication_failed : Socks5Error
  invalid_target hostname_too_long : Socks5Error
  invalid_port : Text → Socks5Error
  invalid_response invalid_bind_type : Socks5Error
  connect_failed : Text → Socks5Error

pub data Answer (A : Type 0) : Type 0 where
  answer : A → Answer A
  refuse : Socks5Error → Answer A

abbrev pub Run : Type 0 → Type 0
Run A = Conn → Answer A × Conn

-- What runs behind an action, and what does not once it failed.
abbrev pub continue : {A B : Type 0} → (A → Run B) → Answer A × Conn → Answer B × Conn
continue f (answer a, c) = f a c
continue f (refuse e, c) = (refuse e, c)

infixl 5 ◌>>=◌ ◌>>◌
abbrev pub ◌>>=◌ : {A B : Type 0} → Run A → (A → Run B) → Run B
◌>>=◌ m f c = continue f (m c)

abbrev pub ◌>>◌ : {B : Type 0} → Run (Unit {0}) → Run B → Run B
m >> k = m >>= λ _. k

abbrev pub return : {A : Type 0} → A → Run A
return a c = (answer a, c)

abbrev pub fail : {A : Type 0} → Socks5Error → Run A
fail e c = (refuse e, c)

-- `conn.Write`
unfoldable pub write : List ℕ → Run (Unit {0})
write bytes c = elim c.writes [
  | zero ↦ (refuse write_failed, c)
  | suc n ↦ (answer tt, record c { written = c.written ++ bytes; writes = n })
]

-- The first `n` bytes and the rest.
unfoldable pub take_bytes : ℕ → List ℕ → Option (List ℕ × List ℕ)
take_bytes zero bs = some ([], bs)
take_bytes (suc n) [] = none
take_bytes (suc n) (b ∷ bs) = elim (take_bytes n bs) [ none ↦ none | some (x, y) ↦ some (b ∷ x, y) ]

-- `io.ReadFull`, and `io.CopyN` where the bytes are dropped
unfoldable pub read_full : ℕ → Run (List ℕ)
unfolding take_bytes
read_full n c = elim (take_bytes n c.incoming) [
  | none ↦ (refuse unexpected_eof, record c { incoming = [] })
  | some (bytes, rest) ↦ (answer bytes, record c { incoming = rest })
]

-- `fmt.Sprintf("%d", n)` of a byte
unfoldable pub print_byte : ℕ → Text
print_byte n =
    if ltb n 10
    then (b'0' + n) ∷ []
    else if ltb n 100
    then (b'0' + n / 10) ∷ (b'0' + n % 10) ∷ []
    else (b'0' + n / 100) ∷ (b'0' + (n / 10) % 10) ∷ (b'0' + n % 10) ∷ []

unfoldable pub socks5_reply_name : ℕ → Text
unfolding print_byte
socks5_reply_name code =
    if code == 0x01
    then codes "general failure"
    else if code == 0x02
    then codes "connection not allowed"
    else if code == 0x03
    then codes "network unreachable"
    else if code == 0x04
    then codes "host unreachable"
    else if code == 0x05
    then codes "connection refused"
    else if code == 0x06
    then codes "ttl expired"
    else if code == 0x07
    then codes "command not supported"
    else if code == 0x08
    then codes "address type not supported"
    else codes "reply code " ++ print_byte code

-- The address field of a request: its type and its bytes.
unfoldable pub address_field : Text → Answer (List ℕ)
unfolding parse_ip utf8
address_field host = elim (parse_ip host) [
  | some (v4 bytes) ↦ answer (0x01 ∷ bytes)
  | some (v6 bytes) ↦ answer (0x04 ∷ bytes)
  | none ↦
      let bytes = utf8 host in
      if ltb 255 (length bytes)
      then refuse hostname_too_long
      else answer (0x03 ∷ (length bytes % 256) ∷ bytes)
]

-- The port of a request, if it is one.
unfoldable pub target_port : Text → Option ℕ
unfolding atoi
target_port value = elim (atoi value) [
  | some (pos n) ↦ if ltb n 1 || ltb 65535 n then none else some n
  | _ ↦ none
]

unfoldable pub socks5_connect_request : Text → Answer (List ℕ)
unfolding split_host_port target_port address_field
socks5_connect_request target = elim (split_host_port target) [
  | none ↦ refuse invalid_target
  | some (host, value) ↦ elim (target_port value) [
    | none ↦ refuse (invalid_port value)
    | some port ↦ elim (address_field host) [
      | refuse e ↦ refuse e
      | answer field ↦
          answer (0x05 ∷ 0x01 ∷ 0x00 ∷ (field ++ ((port % 65536 / 256) ∷ (port % 256) ∷ [])))
    ]
  ]
]

unfoldable pub authenticate : Dialer → Run (Unit {0})
unfolding utf8 write read_full
authenticate d =
    let username = utf8 d.username in
    let password = utf8 d.password in
    if ltb 255 (length username) || ltb 255 (length password) then fail credentials_too_long else do
      write (0x01 ∷ (length username % 256) ∷ (username ++ ((length password % 256) ∷ password)))
      response ← read_full 2
      if text_eq response (0x01 ∷ 0x00 ∷ []) then return tt else fail authentication_failed

unfoldable pub first_byte : List ℕ → ℕ
first_byte [] = 0
first_byte (b ∷ bs) = b

-- The length of the bind address, with the byte that holds it.
unfoldable pub bind_length : ℕ → Run ℕ
unfolding read_full first_byte
bind_length atyp =
    if atyp == 0x01
    then return 4
    else if atyp == 0x04
    then return 16
    else if atyp == 0x03
    then (read_full 1 >>= λ size. return (first_byte size))
    else fail invalid_bind_type

unfoldable pub discard_socks5_bind_address : ℕ → Run (Unit {0})
unfolding bind_length read_full
discard_socks5_bind_address atyp = do
  length ← bind_length atyp
  address ← (if ltb 0 length then read_full length else return [])
  port ← read_full 2
  return tt

-- What the greeting offers.
unfoldable pub methods_of : Dialer → List ℕ
unfolding is_empty
methods_of d = if is_empty d.username && is_empty d.password then 0x00 ∷ [] else 0x00 ∷ 0x02 ∷ []

-- What the handshake does with the method that the proxy chose.
unfoldable pub chosen_method : Dialer → List ℕ → Run (Unit {0})
unfolding authenticate
chosen_method d (version ∷ method ∷ []) =
    if not (version == 0x05)
    then fail invalid_greeting
    else if method == 0x00
    then return tt
    else if method == 0x02
    then authenticate d
    else fail rejected_methods
chosen_method d _ = fail invalid_greeting

-- What the handshake does with the reply to the request.
unfoldable pub connect_reply : List ℕ → Run (Unit {0})
unfolding socks5_reply_name discard_socks5_bind_address
connect_reply (version ∷ code ∷ reserved ∷ atyp ∷ []) =
    if not (version == 0x05)
    then fail invalid_response
    else if not (code == 0x00)
    then fail (connect_failed (socks5_reply_name code))
    else discard_socks5_bind_address atyp
connect_reply _ = fail invalid_response

unfoldable pub handshake : Dialer → Text → Run (Unit {0})
unfolding write read_full methods_of chosen_method socks5_connect_request connect_reply
handshake d target = do
  let methods = methods_of d
  write (0x05 ∷ (length methods % 256) ∷ [])
  write methods
  reply ← read_full 2
  chosen_method d reply
  request ← (λ c. (socks5_connect_request target, c))
  write request
  header ← read_full 4
  connect_reply header

-- `DialContext`, with the connection that the network gives, or none. The second part of the result
-- is that connection as it was left.
unfoldable pub dial_context :
    (Text → Option Conn) → Dialer → Text → Text → Answer Conn × Option Conn
unfolding text_eq handshake trim_space
dial_context net_dial d network address =
    if not (
      text_eq network (codes "tcp")
      || text_eq network (codes "tcp4")
      || text_eq network (codes "tcp6"))
    then (refuse (unsupported_network network), none)
    else elim (net_dial (trim_space d.address)) [
      | none ↦ (refuse dial_failed, none)
      | some conn ↦
          let (r, c) = handshake d address conn in
          elim r [
            | refuse e ↦ (refuse e, some (record c { closed = true }))
            | answer _ ↦ (answer c, some c)
          ]
    ]
