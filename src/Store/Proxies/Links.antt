-- ===== src/Store/Proxies/Links.antt =====
-- No backend points to a proxy that is gone.
use token_gate.Base.{
  ℕ, ◌≡◌, refl, ap, ◌∙◌, inl, inr, Bool, true, false, ◌||◌, Option, none, some, List, [], ◌∷◌, ◌++◌,
  arith, ◌==◌, Bool-cases, any, All,
}
use token_gate.Domain.{SocksProxy, Backend}
use token_gate.Store.{Db}
use token_gate.Store.Backends.{find_proxy}
use token_gate.Store.Proxies.{
  proxy_name_taken, create_socks_proxy, updated_proxy, update_proxy_row, update_found,
  update_socks_proxy, without_proxy, detach, delete_socks_proxy,
}
use token_gate.Text.{trim_space}
use token_gate.Time.{Time}

-- A row with this id is in the table.
abbrev pub has_proxy : ℕ → List SocksProxy → Bool
has_proxy id ps = any (λ (p : SocksProxy). p.id == id) ps

-- The backend uses no proxy, or one that is there.
abbrev pub is_linked : List SocksProxy → Backend → Bool
is_linked ps b = b.proxy_id == 0 || has_proxy b.proxy_id ps

abbrev pub Linked : List SocksProxy → List Backend → Type 0
Linked ps bs = All (λ (b : Backend). is_linked ps b ≡ true) bs

pub data ProxyCall : Type 0 where
  create_proxy : Time → SocksProxy → ProxyCall
  update_proxy : Time → SocksProxy → ProxyCall
  delete_proxy : ℕ → ProxyCall

unfoldable pub proxy_step : ProxyCall → Db → Db
unfolding create_socks_proxy update_socks_proxy delete_socks_proxy
proxy_step (create_proxy now p) db = (create_socks_proxy now p db).0
proxy_step (update_proxy now p) db = (update_socks_proxy now p db).0
proxy_step (delete_proxy id) db = delete_socks_proxy id db

unfoldable pub proxy_history : List ProxyCall → Db → Db
unfolding proxy_step
proxy_history [] db = db
proxy_history (c ∷ cs) db = proxy_history cs (proxy_step c db)

has_proxy-append :
    (id : ℕ) (ps : List SocksProxy) (p : SocksProxy)
    → has_proxy id ps ≡ true
    → has_proxy id (ps ++ (p ∷ [])) ≡ true
has_proxy-append id [] p h = ground arith
has_proxy-append id (q ∷ ps) p h = ground (arith, has_proxy-append id ps p)

has_proxy-update_proxy_row :
    (id i : ℕ) (now : Time) (p : SocksProxy) (ps : List SocksProxy)
    → has_proxy id (update_proxy_row i (updated_proxy now p) ps) ≡ has_proxy id ps
unfolding update_proxy_row updated_proxy
has_proxy-update_proxy_row id i now p [] = refl
has_proxy-update_proxy_row id i now p (q ∷ ps) = elim (Bool-cases (q.id == i)) [
  | inl e ↦ rw e (ap (λ b. q.id == id || b) (has_proxy-update_proxy_row id i now p ps))
  | inr e ↦ rw e (ap (λ b. q.id == id || b) (has_proxy-update_proxy_row id i now p ps))
]

has_proxy-without_proxy :
    (id i : ℕ) (ps : List SocksProxy)
    → (id == i) ≡ false
    → has_proxy id ps ≡ true
    → has_proxy id (without_proxy i ps) ≡ true
unfolding without_proxy
has_proxy-without_proxy id i [] e h = h
has_proxy-without_proxy id i (q ∷ ps) e h = ground (arith, has_proxy-without_proxy id i ps e)

-- Backends stay linked to a table that has at least the same ids.
Linked-grow :
    (ps qs : List SocksProxy) (bs : List Backend)
    → ((id : ℕ) → has_proxy id ps ≡ true → has_proxy id qs ≡ true)
    → Linked ps bs
    → Linked qs bs
Linked-grow ps qs [] g l = tt
Linked-grow ps qs (b ∷ bs) g (h, l) =
    let k = g b.proxy_id in (ground arith, Linked-grow ps qs bs g l)

Linked-detach :
    (id : ℕ) (ps : List SocksProxy) (bs : List Backend)
    → Linked ps bs
    → Linked (without_proxy id ps) (detach id bs)
unfolding detach
Linked-detach id ps [] l = tt
Linked-detach id ps (b ∷ bs) (h, l) = elim (Bool-cases (b.proxy_id == id)) [
  | inl e ↦ rw e (refl, Linked-detach id ps bs l)
  | inr e ↦
      let k = has_proxy-without_proxy b.proxy_id id ps e in
      rw e (ground arith, Linked-detach id ps bs l)
]

abbrev IsLinked : Db → Type 0
IsLinked db = Linked db.proxies db.backends

create_socks_proxy-IsLinked :
    (now : Time) (p : SocksProxy) (db : Db) → IsLinked db → IsLinked (create_socks_proxy now p db).0
unfolding create_socks_proxy
create_socks_proxy-IsLinked now p db l =
    elim (Bool-cases (proxy_name_taken 0 (trim_space p.name) db.proxies)) [
      | inl e ↦ rw (e, Linked) l
      | inr e ↦
          rw (e, Linked)
            (Linked-grow db.proxies _ db.backends (λ id. has_proxy-append id db.proxies _) l)
    ]

update_found-IsLinked :
    (now : Time) (p : SocksProxy) (db : Db) (found : Option SocksProxy)
    → IsLinked db
    → IsLinked (update_found now p db found).0
unfolding update_found
update_found-IsLinked now p db none l = l
update_found-IsLinked now p db (some old) l =
    elim (Bool-cases (proxy_name_taken p.id (trim_space p.name) db.proxies)) [
      | inl e ↦ rw (e, Linked) l
      | inr e ↦
          rw (e, Linked)
            (Linked-grow db.proxies _ db.backends
              (λ id h. has_proxy-update_proxy_row id p.id now p db.proxies ∙ h) l)
    ]

proxy_step-IsLinked : (c : ProxyCall) (db : Db) → IsLinked db → IsLinked (proxy_step c db)
unfolding proxy_step update_socks_proxy delete_socks_proxy
proxy_step-IsLinked (create_proxy now p) db l = create_socks_proxy-IsLinked now p db l
proxy_step-IsLinked (update_proxy now p) db l =
    update_found-IsLinked now p db (find_proxy p.id db.proxies) l
proxy_step-IsLinked (delete_proxy id) db l = Linked-detach id db.proxies db.backends l

-- If every backend uses no proxy or one that is in the table, this stays so whatever proxies are
-- created, updated and deleted.
pub proxy_history-Linked :
    (cs : List ProxyCall) (db : Db)
    → Linked db.proxies db.backends
    → Linked (proxy_history cs db).proxies (proxy_history cs db).backends
unfolding proxy_history
proxy_history-Linked [] db l = l
proxy_history-Linked (c ∷ cs) db l =
    proxy_history-Linked cs (proxy_step c db) (proxy_step-IsLinked c db l)
