-- ===== src/Examples/Registries.antt =====
-- The theorems about internal/server/registry.go on a table of two tunnels.
use lotun.Base.{◌≡◌, ◌⊎◌, ◌<◌, ℕ, [], ◌==◌, nat_eq, elem}
use lotun.Base.Int.{pos, int_eq}
use lotun.Base.Bytes.{bytes, bytes_eq}
use lotun.Dict.Laws.{unless, is_some_and}
use lotun.Store.{is_claimed}
use lotun.Registry.{
  alloc_port, free_name, name_tries, register, remove_session, lookup_http, lookup_tcp,
}
use lotun.Registry.Valid.{IsValid}
use lotun.Registry.History.{run-IsValid}
use lotun.Registry.Ports.{Allocated, alloc_port-Allocated}
use lotun.Registry.Placement.{Registration, register-Registration}
use lotun.Registry.FreeName.{FirstFree, NoneFree, nth_name, free_name-FirstFree}
use lotun.Registry.Removal.{remove_session_lem}
use lotun.Examples.Data.{rng, seed, one_claim, web_request, calls, routed}

pub routed-IsValid : IsValid routed
routed-IsValid = (run-IsValid (pos 20000) (pos 20002) calls).0

run-IsValid_example : IsValid routed × (routed.port_min ≡ pos 20000) × (routed.port_max ≡ pos 20002)
run-IsValid_example = run-IsValid (pos 20000) (pos 20002) calls

register-Registration_example :
    Registration
      (is_claimed one_claim)
      routed
      web_request
      3
      []
      seed
      rng
      (register (is_claimed one_claim) routed web_request 3 [] seed rng)
register-Registration_example =
    register-Registration (is_claimed one_claim) routed web_request 3 [] seed rng

alloc_port-Allocated_example :
    Allocated routed (pos 0) (pos 20001) (alloc_port routed (pos 0) (pos 20001))
alloc_port-Allocated_example = alloc_port-Allocated routed (pos 0) (pos 20001)

free_name-FirstFree_example :
    ((i : ℕ) × (i < name_tries)
      × FirstFree
          (is_claimed one_claim)
          routed
          rng
          i
          (free_name (is_claimed one_claim) routed rng).0)
    ⊎ (((free_name (is_claimed one_claim) routed rng).0 ≡ nth_name name_tries rng)
        × NoneFree (is_claimed one_claim) routed name_tries rng)
free_name-FirstFree_example = free_name-FirstFree (is_claimed one_claim) routed rng

remove_session_lem_example :
    (lookup_http (remove_session routed 2).0 (bytes "web")
      ≡ unless (λ tn. tn.session == 2) (lookup_http routed (bytes "web")))
    × (lookup_tcp (remove_session routed 2).0 (pos 20001)
        ≡ unless (λ tn. tn.session == 2) (lookup_tcp routed (pos 20001)))
    × (elem (pos 20001) (remove_session routed 2).1
        ≡ is_some_and (λ tn. tn.session == 2) (lookup_tcp routed (pos 20001)))
remove_session_lem_example = remove_session_lem routed 2 (bytes "web") (pos 20001) routed-IsValid
