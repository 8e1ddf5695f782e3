-- ===== src/Tests/ProxyTests.antt =====
-- The proxies at a concrete database.
use token_gate.Base.{◌≡◌, refl, true, List, [], ◌∷◌, map, pos}
use token_gate.Domain.{SocksProxy, Backend}
use token_gate.Store.{Db, empty_db}
use token_gate.Store.Proxies.Links.{
  Linked, ProxyCall, create_proxy, update_proxy, delete_proxy, proxy_history, proxy_history-Linked,
}
use token_gate.Tests.Samples.{at_second, backend}
use token_gate.Text.{codes, trim_space}

abbrev home_proxy : SocksProxy
home_proxy = record {
  id = 0;
  name = codes " home ";
  address = codes "10.0.0.1:1080";
  username = [];
  password = [];
  enabled = true;
  created_at = at_second 1 0;
  updated_at = at_second 1 0;
}

abbrev proxied : Db
proxied = record empty_db {
  backends = record (backend 1 "edge-a" (pos 5) []) { proxy_id = 1 } ∷ [];
  next_backend_id = 2;
  proxies = record home_proxy { id = 1; name = codes "home" } ∷ [];
  next_proxy_id = 2;
}

abbrev proxy_calls : List ProxyCall
proxy_calls =
    create_proxy (at_second 2 0) (record home_proxy { name = codes "spare" })
    ∷ update_proxy (at_second 3 0) (record home_proxy { id = 2 })
    ∷ delete_proxy 1
    ∷ []

-- The deletion detaches the backend, and the update fails on the name that is taken.
detached : map (λ (b : Backend). b.proxy_id) (proxy_history proxy_calls proxied).backends ≡ 0 ∷ []
unfolding proxy_history trim_space
detached = refl

kept_name :
    map (λ (p : SocksProxy). p.name) (proxy_history proxy_calls proxied).proxies
    ≡ codes "spare" ∷ []
unfolding proxy_history trim_space
kept_name = refl

proxy_history-Linked_example :
    Linked (proxy_history proxy_calls proxied).proxies (proxy_history proxy_calls proxied).backends
proxy_history-Linked_example = proxy_history-Linked proxy_calls proxied (refl, tt)
