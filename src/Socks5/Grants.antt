-- ===== src/Socks5/Grants.antt =====
-- What a SOCKS5 proxy has to send for a handshake to succeed (RFC 1928 and RFC 1929), described
-- apart from the code that reads it, and the handshake against that description.
use token_gate.Base.{
  ℕ, zero, suc, ◌+◌, ◌-◌, ◌%◌, ◌≤◌, ◌≡◌, refl, ap, ◌∙◌, false, ◌||◌, some, List, [], ◌∷◌, ◌++◌,
  append_assoc, arith, ltb, if◌then◌else◌, lt→ltb, length,
}
use token_gate.Socks5.{
  Dialer, Conn, authentication_failed, answer, Run, continue, ◌>>=◌, ◌>>◌, return, fail, write,
  take_bytes, read_full, socks5_connect_request, authenticate, discard_socks5_bind_address,
  methods_of, chosen_method, connect_reply, handshake,
}
use token_gate.Text.{Text, text_eq, utf8}

-- A bind address and a port behind their type.
pub data Binds : ℕ → List ℕ → Type 0 where
  by_ipv4 :
      (address port : List ℕ) → length address ≡ 4 → length port ≡ 2 → Binds 1 (address ++ port)
  by_ipv6 :
      (address port : List ℕ) → length address ≡ 16 → length port ≡ 2 → Binds 4 (address ++ port)
  by_name : (name port : List ℕ) → length port ≡ 2 → Binds 3 (length name ∷ (name ++ port))

-- A choice of method, with the answer to the credentials where it asks for them.
pub data Admits : Dialer → List ℕ → Type 0 where
  open_access : {d : Dialer} → Admits d (5 ∷ 0 ∷ [])
  by_password :
      {d : Dialer}
      → length (utf8 d.username) ≤ 255
      → length (utf8 d.password) ≤ 255
      → Admits d (5 ∷ 2 ∷ 1 ∷ 0 ∷ [])

-- The bytes of a granted tunnel.
pub data Grants : Dialer → List ℕ → Type 0 where
  granted :
      {d : Dialer} (admission : List ℕ) (reserved atyp : ℕ) (bind : List ℕ)
      → Admits d admission
      → Binds atyp bind
      → Grants d (admission ++ (5 ∷ 0 ∷ reserved ∷ atyp ∷ bind))

pub take_bytes-append :
    (n : ℕ) (xs ys : List ℕ) → length xs ≡ n → take_bytes n (xs ++ ys) ≡ some (xs, ys)
unfolding take_bytes
take_bytes-append zero [] ys h = refl
take_bytes-append zero (x ∷ xs) ys h = ground arith
take_bytes-append (suc n) [] ys h = ground arith
take_bytes-append (suc n) (x ∷ xs) ys h = rw (take_bytes-append n xs ys (ground arith)) refl

-- A connection with these bytes still to come.
abbrev pub with_incoming : Conn → List ℕ → Conn
with_incoming c bytes = record c { incoming = bytes }

pub read_full-append :
    (c : Conn) (n : ℕ) (xs ys : List ℕ)
    → length xs ≡ n
    → read_full n (with_incoming c (xs ++ ys)) ≡ (answer xs, with_incoming c ys)
unfolding read_full
read_full-append c n xs ys h = rw (take_bytes-append n xs ys h, read_full) refl

-- What follows an action that answers.
pub after :
    {A B : Type 0} (m : Run A) (f : A → Run B) (c : Conn) {a : A} {c' : Conn}
    → m c ≡ (answer a, c')
    → (m >>= f) c ≡ f a c'
after m f c h = ap (continue f) h

-- The address of `n` bytes, and the port.
abbrev skip : ℕ → Run (Unit {0})
skip n = read_full n >>= λ address. read_full 2 >>= λ port. return tt

skip-append :
    (c : Conn) (n : ℕ) (a p rest : List ℕ)
    → length a ≡ n
    → length p ≡ 2
    → skip n (with_incoming c ((a ++ p) ++ rest)) ≡ (answer tt, with_incoming c rest)
skip-append c n a p rest ha hp = rw (append_assoc a p rest) (
    after (read_full n) (λ address. read_full 2 >>= λ port. return tt) _
      (read_full-append c n a (p ++ rest) ha)
    ∙ after (read_full 2) (λ port. return tt) _ (read_full-append c 2 p rest hp))

pub discard-Binds :
    (c : Conn) {atyp : ℕ} {bind : List ℕ} (rest : List ℕ)
    → Binds atyp bind
    → discard_socks5_bind_address atyp (with_incoming c (bind ++ rest))
      ≡ (answer tt, with_incoming c rest)
unfolding discard_socks5_bind_address
discard-Binds c rest (by_ipv4 a p ha hp) = skip-append c 4 a p rest ha hp
discard-Binds c rest (by_ipv6 a p ha hp) = skip-append c 16 a p rest ha hp
discard-Binds c rest (by_name [] p hp) =
    after (read_full 2) (λ port. return tt) _ (read_full-append c 2 p rest hp)
discard-Binds c rest (by_name (b ∷ a) p hp) =
    rw (lt→ltb 0 (suc (length a)) (omega arith))
      (skip-append c (suc (length a)) (b ∷ a) p rest refl hp)

-- The connection after a write, and one with so many writes left.
abbrev sent : Conn → List ℕ → Conn
sent c bytes = record c { written = c.written ++ bytes; writes = c.writes - 1 }

write-sent : (c : Conn) (bytes : List ℕ) → 1 ≤ c.writes → write bytes c ≡ (answer tt, sent c bytes)
unfolding write
write-sent c bytes h = ground arith

-- The credentials as they are sent.
abbrev credentials : Dialer → List ℕ
credentials d =
    0x01
    ∷ (length (utf8 d.username) % 256)
    ∷ (utf8 d.username ++ ((length (utf8 d.password) % 256) ∷ utf8 d.password))

short : (m n : ℕ) → m ≤ 255 → n ≤ 255 → (ltb 255 m || ltb 255 n) ≡ false
short m n hm hn = ground arith

authenticate-by_password :
    (d : Dialer) (c : Conn) (rest : List ℕ)
    → length (utf8 d.username) ≤ 255
    → length (utf8 d.password) ≤ 255
    → 1 ≤ c.writes
    → authenticate d (with_incoming c (1 ∷ 0 ∷ rest))
      ≡ (answer tt, record (sent c (credentials d)) { incoming = rest })
unfolding authenticate text_eq
authenticate-by_password d c rest hu hp hw = rw (short _ _ hu hp) (
    after (write (credentials d))
      (λ x. read_full 2 >>= λ response.
        if text_eq response (0x01 ∷ 0x00 ∷ []) then return tt else fail authentication_failed)
      _ (write-sent (with_incoming c (1 ∷ 0 ∷ rest)) (credentials d) hw))

-- The admission, in front of what runs behind it.
admitted :
    (d : Dialer) (k : Run (Unit {0})) (c : Conn) (m rest : List ℕ)
    → Admits d m
    → 1 ≤ c.writes
    → (c' : Conn) × ((read_full 2 >>= λ reply. chosen_method d reply >> k)
          (with_incoming c (m ++ rest))
        ≡ k (with_incoming c' rest))
      × (c.writes ≤ c'.writes + 1)
      × (c'.closed ≡ c.closed)
unfolding chosen_method read_full
admitted d k c m rest open_access h = (c, refl, omega arith, refl)
admitted d k c m rest (by_password hu hp) h = (
  sent c (credentials d),
  after (authenticate d) (λ x. k) _ (authenticate-by_password d c rest hu hp h),
  omega arith,
  refl,
)

abbrev requesting : List ℕ → Run (Unit {0})
requesting request = write request >> (read_full 4 >>= connect_reply)

abbrev behind_admission : Text → Run (Unit {0})
behind_admission target = (λ c. (socks5_connect_request target, c)) >>= requesting

requested :
    (target : Text) (c : Conn) (request rest : List ℕ) (reserved atyp : ℕ) (bind : List ℕ)
    → socks5_connect_request target ≡ answer request
    → Binds atyp bind
    → 1 ≤ c.writes
    → behind_admission target (with_incoming c (5 ∷ 0 ∷ reserved ∷ atyp ∷ (bind ++ rest)))
      ≡ (answer tt, with_incoming (sent c request) rest)
unfolding connect_reply read_full
requested target c request rest r atyp bind hr hb hw =
    let c1 = with_incoming c (5 ∷ 0 ∷ r ∷ atyp ∷ (bind ++ rest)) in
    after (λ c. (socks5_connect_request target, c)) requesting c1 (ap (λ a. (a, c1)) hr)
    ∙ after (write request) (λ x. read_full 4 >>= connect_reply) c1 (write-sent c1 request hw)
    ∙ discard-Binds (sent c request) rest hb

-- If the target is one that a request can name, four writes succeed and the proxy grants the
-- tunnel, then the handshake succeeds, leaves the connection open, and has read the grant to its
-- last byte and nothing behind it: what the target sends next is what the client reads first.
pub handshake-Grants :
    (d : Dialer) (target : Text) (c : Conn) (request grant rest : List ℕ)
    → socks5_connect_request target ≡ answer request
    → Grants d grant
    → 4 ≤ c.writes
    → (c' : Conn) × (handshake d target (with_incoming c (grant ++ rest))
        ≡ (answer tt, with_incoming c' rest))
      × (c'.closed ≡ c.closed)
unfolding handshake
handshake-Grants d target c request grant rest hr (granted m r atyp bind hm hb) hw =
    let greeting = 0x05 ∷ (length (methods_of d) % 256) ∷ [] in
    let c1 = sent c greeting in
    let c2 = sent c1 (methods_of d) in
    let (c3, run, left, same) =
      admitted d (behind_admission target) c2 m (5 ∷ 0 ∷ r ∷ atyp ∷ (bind ++ rest)) hm
        (omega arith) in
    let all = m ++ (5 ∷ 0 ∷ r ∷ atyp ∷ (bind ++ rest)) in
    let asked = read_full 2 >>= λ reply. chosen_method d reply >> behind_admission target in
    (
      sent c3 request,
      rw (append_assoc m (5 ∷ 0 ∷ r ∷ atyp ∷ bind) rest) (
          after (write greeting) (λ x. write (methods_of d) >> asked) (with_incoming c all)
            (write-sent (with_incoming c all) greeting (omega arith))
          ∙ after (write (methods_of d)) (λ x. asked) (with_incoming c1 all)
              (write-sent (with_incoming c1 all) (methods_of d) (omega arith))
          ∙ run
          ∙ requested target c3 request rest r atyp bind hr hb (omega arith)),
      same,
    )
