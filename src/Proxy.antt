-- ===== src/Proxy.antt =====
-- internal/proxy/proxy.go: what the forwarding of a request decides: the endpoint of a path, the
-- protocol spoken to a backend, the headers sent upstream, the path below a base URL, and the
-- client. Sending the request is net/http's.
pub mod Forwarding
use token_gate.Base.{
  ℕ, Bool, not, ◌&&◌, ◌||◌, Option, none, some, List, [], ◌∷◌, ◌++◌, ◌==◌, if◌then◌else◌,
}
use token_gate.Domain.{
  endpoint_chat, endpoint_responses, endpoint_embeddings, endpoint_images, endpoint_messages,
  endpoint_models, protocol_openai, protocol_anthropic, protocol_both, SocksProxy, Backend,
  normalize_backend_protocol, is_backend_failure_status,
}
use token_gate.HttpHeader.{Header, add, del, set}
use token_gate.Socks5.{Dialer}
use token_gate.Text.{
  Text, codes, text_eq, is_empty, trim_space, to_lower, has_prefix, trim_prefix, has_suffix, join,
}

unfoldable pub endpoint_for_path : Text → Text
unfolding text_eq
endpoint_for_path path =
    if text_eq path (codes "/v1/chat/completions")
    then endpoint_chat
    else if text_eq path (codes "/v1/responses")
    then endpoint_responses
    else if text_eq path (codes "/v1/embeddings")
    then endpoint_embeddings
    else if text_eq path (codes "/v1/images/generations")
    then endpoint_images
    else if text_eq path (codes "/v1/messages") || text_eq path (codes "/v1/messages/count_tokens")
    then endpoint_messages
    else if text_eq path (codes "/v1/models")
    then endpoint_models
    else []

unfoldable pub effective_backend_protocol_for_path : Backend → Text → Text
unfolding text_eq endpoint_for_path normalize_backend_protocol
effective_backend_protocol_for_path backend path =
    let protocol = normalize_backend_protocol backend.protocol in
    if not (text_eq protocol protocol_both)
    then protocol
    else if text_eq (endpoint_for_path path) endpoint_messages
    then protocol_anthropic
    else protocol_openai

unfoldable pub retryable_status : ℕ → Bool
unfolding is_backend_failure_status
retryable_status status = is_backend_failure_status status

unfoldable pub bearer_value : Text → Text
unfolding has_prefix trim_space to_lower
bearer_value raw =
    let value = trim_space raw in
    if has_prefix (codes "bearer ") (to_lower value) then value else codes "Bearer " ++ value

unfoldable pub add_values : Text → List Text → Header → Header
unfolding add
add_values key [] dst = dst
add_values key (v ∷ vs) dst = add_values key vs (add key v dst)

unfoldable pub copy_headers : Header → Header → Header
unfolding add_values
copy_headers dst [] = dst
copy_headers dst ((key, vs) ∷ src) = copy_headers (add_values key vs dst) src

-- `Del` of each key, in order.
unfoldable pub del_all : List Text → Header → Header
unfolding del
del_all [] h = h
del_all (key ∷ keys) h = del_all keys (del key h)

abbrev pub hop_by_hop : List Text
hop_by_hop =
    codes "Connection"
    ∷ codes "Keep-Alive"
    ∷ codes "Proxy-Authenticate"
    ∷ codes "Proxy-Authorization"
    ∷ codes "Proxy-Connection"
    ∷ codes "Te"
    ∷ codes "Trailer"
    ∷ codes "Transfer-Encoding"
    ∷ codes "Upgrade"
    ∷ []

unfoldable pub remove_hop_by_hop_headers : Header → Header
unfolding del_all
remove_hop_by_hop_headers h = del_all hop_by_hop h

unfoldable pub apply_backend_auth : Header → Backend → Text → Header
unfolding text_eq set effective_backend_protocol_for_path bearer_value
apply_backend_auth h backend path =
    if text_eq (effective_backend_protocol_for_path backend path) protocol_anthropic
    then set (codes "X-Api-Key") (trim_space backend.api_key) h
    else set (codes "Authorization") (bearer_value backend.api_key) h

unfoldable pub sanitize_backend_headers : Header → Backend → Text → Header
unfolding text_eq del_all effective_backend_protocol_for_path
sanitize_backend_headers h backend path =
    if text_eq (effective_backend_protocol_for_path backend path) protocol_anthropic
    then h
    else del_all (codes "Anthropic-Version" ∷ codes "Anthropic-Beta" ∷ []) h

abbrev pub client_only : List Text
client_only = codes "Authorization" ∷ codes "X-Api-Key" ∷ codes "Host" ∷ codes "Content-Length" ∷ []

-- The headers that `DoWithPath` sends for these incoming ones.
unfoldable pub upstream_headers : Header → Backend → Text → Header
unfolding copy_headers remove_hop_by_hop_headers del_all sanitize_backend_headers apply_backend_auth
upstream_headers incoming backend path =
    let copied = remove_hop_by_hop_headers (copy_headers [] incoming) in
    apply_backend_auth (sanitize_backend_headers (del_all client_only copied) backend path) backend
      path

-- `strings.TrimRight(s, "/")`
unfoldable pub trim_slashes : Text → Text
trim_slashes [] = []
trim_slashes (c ∷ s) = elim (trim_slashes s) [
  | [] ↦ if c == b'/' then [] else c ∷ []
  | d ∷ t ↦ c ∷ d ∷ t
]

unfoldable pub join_base_path : Text → Text → Text
unfolding trim_slashes has_suffix has_prefix trim_prefix is_empty
join_base_path base_path request_path =
    let base = trim_slashes base_path in
    if has_suffix (codes "/v1") base && has_prefix (codes "/v1/") request_path
    then base ++ trim_prefix (codes "/v1") request_path
    else if is_empty base
    then request_path
    else base ++ request_path

-- The clients: the one given to `NewWithHTTPClient`, the direct one, and one behind a dialer.
pub data Client : Type 0 where
  given direct : Client
  via_socks5 : Dialer → Client

pub data ClientError : Type 0 where
  proxy_not_found proxy_disabled proxy_address_empty : ClientError

pub data Chosen : Type 0 where
  client : Client → Chosen
  refused : ClientError → Chosen

-- `Service`, by the cache of its clients, and whether one client was given for all requests.
pub record ProxyService : Type 0 where
  pub has_client : Bool
  pub proxy_clients : List (Text × Client)

unfoldable pub socks_proxy_key : SocksProxy → Text
unfolding join trim_space
socks_proxy_key proxy = join (0 ∷ []) (
    codes "proxy"
    ∷ trim_space proxy.name
    ∷ trim_space proxy.address
    ∷ trim_space proxy.username
    ∷ proxy.password
    ∷ [])

abbrev pub dialer_of : SocksProxy → Dialer
dialer_of proxy = record {
  address = proxy.address;
  username = proxy.username;
  password = proxy.password;
}

unfoldable pub find_client : Text → List (Text × Client) → Option Client
unfolding text_eq
find_client key [] = none
find_client key ((k, c) ∷ m) =
    let rest = find_client key m in if text_eq k key then some c else rest

pub data Usable : Type 0 where
  usable : SocksProxy → Usable
  unusable : ClientError → Usable

-- What `NewHTTPClientForBackend` and `clientForBackend` test before they use the proxy.
unfoldable pub usable_proxy : Backend → Usable
unfolding is_empty trim_space
usable_proxy backend = elim (backend.proxy) [
  | none ↦ unusable proxy_not_found
  | some proxy ↦
      if not proxy.enabled
      then unusable proxy_disabled
      else if is_empty (trim_space proxy.address)
      then unusable proxy_address_empty
      else usable proxy
]

unfoldable pub new_http_client_for_backend : Backend → Chosen
unfolding usable_proxy
new_http_client_for_backend backend =
    if backend.proxy_id == 0 then client direct else elim (usable_proxy backend) [
      | unusable e ↦ refused e
      | usable proxy ↦ client (via_socks5 (dialer_of proxy))
    ]

-- The client behind a proxy, from the cache or put into it.
unfoldable pub cached_client : ProxyService → SocksProxy → Chosen × ProxyService
unfolding socks_proxy_key find_client
cached_client s proxy =
    let key = socks_proxy_key proxy in
    elim (find_client key s.proxy_clients) [
      | some c ↦ (client c, s)
      | none ↦
          let c = via_socks5 (dialer_of proxy) in
          (client c, record s { proxy_clients = (key, c) ∷ s.proxy_clients })
    ]

unfoldable pub client_for_backend : ProxyService → Backend → Chosen × ProxyService
unfolding usable_proxy cached_client
client_for_backend s backend =
    if s.has_client
    then (client given, s)
    else if backend.proxy_id == 0
    then (client direct, s)
    else elim (usable_proxy backend) [
      | unusable e ↦ (refused e, s)
      | usable proxy ↦ cached_client s proxy
    ]
