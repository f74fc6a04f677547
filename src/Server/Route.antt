-- ===== src/Server/Route.antt =====
-- `handle_request` of src/handler.c: which endpoint a request goes to.
use adb_termux_bridge.Base.{
  ◌≡◌, refl, subst, ◌↔◌, inl, inr, ◌&&◌, Option, none, some, if◌then◌else◌, Bool-cases, Bytes,
  codes, bytes_eq, bytes_eq_iff,
}

-- The handlers that `handle_request` calls.
pub data Endpoint : Type 0 where
  health certinfo uptime exec exec_stream download : Endpoint
  tcpforward_get tcpforward_post tcpforward_delete : Endpoint

-- The tests in their order; `none` for the result 0, also for an upload, which server.c handles.
unfoldable pub handle_request : Bytes → Bytes → Option Endpoint
handle_request method path =
    if bytes_eq path (codes "/api/health") && bytes_eq method (codes "GET")
    then some health
    else if bytes_eq path (codes "/api/certinfo") && bytes_eq method (codes "GET")
    then some certinfo
    else if bytes_eq path (codes "/api/uptime") && bytes_eq method (codes "GET")
    then some uptime
    else if bytes_eq path (codes "/api/exec") && bytes_eq method (codes "POST")
    then some exec
    else if bytes_eq path (codes "/api/exec/stream") && bytes_eq method (codes "POST")
    then some exec_stream
    else if bytes_eq path (codes "/api/upload") && bytes_eq method (codes "POST")
    then none
    else if bytes_eq path (codes "/api/download") && bytes_eq method (codes "GET")
    then some download
    else if bytes_eq path (codes "/api/tcpforward") && bytes_eq method (codes "GET")
    then some tcpforward_get
    else if bytes_eq path (codes "/api/tcpforward") && bytes_eq method (codes "POST")
    then some tcpforward_post
    else if bytes_eq path (codes "/api/tcpforward") && bytes_eq method (codes "DELETE")
    then some tcpforward_delete
    else none

-- The method and the path that the documentation gives an endpoint.
abbrev pub endpoint_method : Endpoint → Bytes
endpoint_method exec = codes "POST"
endpoint_method exec_stream = codes "POST"
endpoint_method tcpforward_post = codes "POST"
endpoint_method tcpforward_delete = codes "DELETE"
endpoint_method _ = codes "GET"

abbrev pub endpoint_path : Endpoint → Bytes
endpoint_path health = codes "/api/health"
endpoint_path certinfo = codes "/api/certinfo"
endpoint_path uptime = codes "/api/uptime"
endpoint_path exec = codes "/api/exec"
endpoint_path exec_stream = codes "/api/exec/stream"
endpoint_path download = codes "/api/download"
endpoint_path _ = codes "/api/tcpforward"

Matches : Bytes → Bytes → Option Endpoint → Type 0
Matches method path none = Unit
Matches method path (some e) = (method ≡ endpoint_method e) × (path ≡ endpoint_path e)

-- One test of the chain.
test_case :
    (method path m p : Bytes) (hit miss : Option Endpoint)
    → (path ≡ p → method ≡ m → Matches method path hit)
    → Matches method path miss
    → Matches method path (if bytes_eq path p && bytes_eq method m then hit else miss)
test_case method path m p hit miss f h = elim (Bool-cases (bytes_eq path p)) [
  | inr e ↦ rw e h
  | inl e ↦ elim (Bool-cases (bytes_eq method m)) [
    | inr k ↦ rw (e, k) h
    | inl k ↦ rw (e, k) (f ((bytes_eq_iff path p).0 e) ((bytes_eq_iff method m).0 k))
  ]
]

handle_request-Matches : (method path : Bytes) → Matches method path (handle_request method path)
unfolding handle_request Matches
handle_request-Matches method path =
    test_case method path (codes "GET") (codes "/api/health") _ _ (λ p m. (m, p))
      (test_case method path (codes "GET") (codes "/api/certinfo") _ _ (λ p m. (m, p))
        (test_case method path (codes "GET") (codes "/api/uptime") _ _ (λ p m. (m, p))
          (test_case method path (codes "POST") (codes "/api/exec") _ _ (λ p m. (m, p))
            (test_case method path (codes "POST") (codes "/api/exec/stream") _ _ (λ p m. (m, p))
              (test_case method path (codes "POST") (codes "/api/upload") _ _ (λ p m. tt)
                (test_case method path (codes "GET") (codes "/api/download") _ _ (λ p m. (m, p))
                  (test_case method path (codes "GET") (codes "/api/tcpforward") _ _ (λ p m. (m, p))
                    (test_case method path (codes "POST") (codes "/api/tcpforward") _ _
                      (λ p m. (m, p))
                      (test_case method path (codes "DELETE") (codes "/api/tcpforward") _ _
                        (λ p m. (m, p)) tt)))))))))

own_endpoint : (e : Endpoint) → handle_request (endpoint_method e) (endpoint_path e) ≡ some e
unfolding handle_request bytes_eq
own_endpoint health = refl
own_endpoint certinfo = refl
own_endpoint uptime = refl
own_endpoint exec = refl
own_endpoint exec_stream = refl
own_endpoint download = refl
own_endpoint tcpforward_get = refl
own_endpoint tcpforward_post = refl
own_endpoint tcpforward_delete = refl

-- A request goes to an endpoint exactly if its method and its path are the endpoint's.
pub handle_request_iff :
    (method path : Bytes) (e : Endpoint)
    → (handle_request method path ≡ some e)
      ↔ ((method ≡ endpoint_method e) × (path ≡ endpoint_path e))
unfolding Matches
handle_request_iff method path e = (
  λ h. subst (Matches method path) h (handle_request-Matches method path),
  λ (m, p). rw (m, p) (own_endpoint e),
)
