-- ===== src/Store/Proxies.antt =====
-- internal/store/store_proxy.go: the SOCKS5 proxies, and the backends that use them.
pub mod Links
use token_gate.Base.{
  ℕ, suc, Bool, not, ◌&&◌, Option, none, some, List, [], ◌∷◌, ◌++◌, reverse, ◌==◌, if◌then◌else◌,
  any,
}
use token_gate.Domain.{SocksProxy, Backend}
use token_gate.Socks5.Grants.{after}
use token_gate.Store.{unique_violation, no_rows, Result, ok, err, Db}
use token_gate.Store.Backends.{find_proxy}
use token_gate.Text.{Text, text_eq, trim_space}
use token_gate.Time.{Time}

-- The UNIQUE constraint on the name, against the rows with another id.
unfoldable pub proxy_name_taken : ℕ → Text → List SocksProxy → Bool
unfolding text_eq
proxy_name_taken id name ps = any (λ (p : SocksProxy). not (p.id == id) && text_eq p.name name) ps

unfoldable pub list_socks_proxies : Db → List SocksProxy
list_socks_proxies db = reverse db.proxies

unfoldable pub get_socks_proxy : ℕ → Db → Result SocksProxy
unfolding find_proxy
get_socks_proxy id db = elim (find_proxy id db.proxies) [ none ↦ err no_rows | some p ↦ ok p ]

-- What both statements write.
unfoldable pub trimmed_proxy : SocksProxy → SocksProxy
unfolding trim_space
trimmed_proxy p = record p {
  name = trim_space p.name;
  address = trim_space p.address;
  username = trim_space p.username;
  password = trim_space p.password;
}

-- The row is trimmed; the caller gets its own fields back with the id and the times.
unfoldable pub create_socks_proxy : Time → SocksProxy → Db → Db × Result SocksProxy
unfolding proxy_name_taken trimmed_proxy
create_socks_proxy now proxy db =
    let stamped = record proxy { id = db.next_proxy_id; created_at = now; updated_at = now } in
    if proxy_name_taken 0 (trim_space proxy.name) db.proxies then (db, err unique_violation) else (
      record db {
        proxies = db.proxies ++ (trimmed_proxy stamped ∷ []);
        next_proxy_id = suc db.next_proxy_id;
      },
      ok stamped,
    )

unfoldable pub updated_proxy : Time → SocksProxy → SocksProxy → SocksProxy
unfolding trimmed_proxy
updated_proxy now proxy old = record (trimmed_proxy proxy) {
  id = old.id;
  created_at = old.created_at;
  updated_at = now;
}

unfoldable pub update_proxy_row : ℕ → (SocksProxy → SocksProxy) → List SocksProxy → List SocksProxy
update_proxy_row id f [] = []
update_proxy_row id f (p ∷ ps) = (if p.id == id then f p else p) ∷ update_proxy_row id f ps

-- The update of the row that was found, if one was.
unfoldable pub update_found : Time → SocksProxy → Db → Option SocksProxy → Db × Result SocksProxy
unfolding proxy_name_taken update_proxy_row updated_proxy get_socks_proxy
update_found now proxy db none = (db, err no_rows)
update_found now proxy db (some old) =
    if proxy_name_taken proxy.id (trim_space proxy.name) db.proxies
    then (db, err unique_violation)
    else let after = record db {
      proxies = update_proxy_row proxy.id (updated_proxy now proxy) db.proxies;
    } in
      (after, get_socks_proxy proxy.id after)

unfoldable pub update_socks_proxy : Time → SocksProxy → Db → Db × Result SocksProxy
unfolding find_proxy update_found
update_socks_proxy now proxy db = update_found now proxy db (find_proxy proxy.id db.proxies)

unfoldable pub without_proxy : ℕ → List SocksProxy → List SocksProxy
without_proxy id [] = []
without_proxy id (p ∷ ps) = let rest = without_proxy id ps in if p.id == id then rest else p ∷ rest

-- `UPDATE backends SET proxy_id = 0 WHERE proxy_id = ?`
unfoldable pub detach : ℕ → List Backend → List Backend
detach id [] = []
detach id (b ∷ bs) = (if b.proxy_id == id then record b { proxy_id = 0 } else b) ∷ detach id bs

unfoldable pub delete_socks_proxy : ℕ → Db → Db
unfolding detach without_proxy
delete_socks_proxy id db = record db {
  backends = detach id db.backends;
  proxies = without_proxy id db.proxies;
}
