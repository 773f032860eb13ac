-- ===== src/Http/Tcp.antt =====
-- Who reaches a tcp tunnel: the test of internal/server/tcp.go on what the registry holds.
use lotun.Base.{true, false, ◌≡◌, ◌++◌, ◌∷◌, some, arith, elem}
use lotun.Base.Int.{ℤ}
use lotun.Base.Bytes.{Bytes, bytes_eq}
use lotun.Registry.{Registry, Tunnel, lookup_tcp}
use lotun.Registry.Valid.{IsValid}
use lotun.Http.{accepts_tcp, ip_allowed}
use lotun.Http.Hosts.{IsPlain, strip_port-port}

-- On a valid table, a routed private tcp tunnel takes a connection exactly if its source address
-- is on the tunnel's list, and a public one takes every connection, for addresses without colons
-- or brackets.
pub accepts_tcp_lem :
    (r : Registry) (p : ℤ) (tn : Tunnel) (ip port : Bytes)
    → IsValid r
    → lookup_tcp r p ≡ some tn
    → IsPlain ip
    → IsPlain port
    → (tn.private ≡ true → accepts_tcp tn (ip ++ (b':' ∷ port)) ≡ elem ip tn.allow_ips)
      × (tn.private ≡ false → accepts_tcp tn (ip ++ (b':' ∷ port)) ≡ true)
unfolding accepts_tcp ip_allowed lookup_tcp
accepts_tcp_lem r p tn ip port v routed hi hp =
    let listed = (v.tcp_entries p tn routed).3 in
    (λ private. rw (strip_port-port ip port hi hp) (ground arith), λ public. ground arith)
