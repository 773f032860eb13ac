-- ===== src/Examples/Orders.antt =====
-- Two tables of internal/server/registry.go with the same entries in either order.
use lotun.Base.{◌≡◌, refl, [], ◌∷◌, List, arith}
use lotun.Base.Int.{pos, int_eq}
use lotun.Base.Bytes.{bytes, eqb_bytes}
use lotun.Dict.{lookup, insert}
use lotun.Registry.{Registry, Tunnel, new_registry, lookup_http, lookup_tcp}
use lotun.Registry.Valid.{IsValid, new_registry-IsValid, add_tcp-IsValid}
use lotun.Registry.History.{Call, removes, removes_session, run}
use lotun.Registry.Order.{Agree, answers, run-Agree}
use lotun.Registry.Tables.{
  Removal, of_id, of_session, ValidRegistry, table, remove_all, removed, takes_any,
  remove_all-Takes,
}
use lotun.Dict.Laws.{unless}
use mathlib.Core.List.Perm
use lotun.Examples.Access.{ssh, one_port, one_port-IsValid}

abbrev game : Tunnel
game = record ssh { id = bytes "0a0b0c0d0e0f0102"; port = pos 20000; session = 3 }

abbrev ssh_first : Registry
ssh_first = record one_port { tcp_by_port = insert (pos 20000) game one_port.tcp_by_port }

abbrev one_game : Registry
one_game = record (new_registry (pos 20000) (pos 20002)) {
  tcp_by_port = insert (pos 20000) game [];
}

abbrev game_first : Registry
game_first = record one_game { tcp_by_port = insert (pos 20001) ssh one_game.tcp_by_port }

ssh_first-IsValid : IsValid ssh_first
unfolding new_registry eqb_bytes
ssh_first-IsValid =
    add_tcp-IsValid one_port (pos 20000) game one_port-IsValid
      (refl, refl, (omega arith, omega arith), refl)

game_first-IsValid : IsValid game_first
unfolding new_registry eqb_bytes
game_first-IsValid =
    add_tcp-IsValid one_game (pos 20001) ssh
      (add_tcp-IsValid (new_registry (pos 20000) (pos 20002)) (pos 20000) game
        (new_registry-IsValid _ _) (refl, refl, (omega arith, omega arith), refl))
      (refl, refl, (omega arith, omega arith), refl)

both-Agree : Agree ssh_first game_first
unfolding new_registry lookup_http lookup_tcp lookup insert
both-Agree = record {
  on_http = λ s. refl;
  on_tcp = λ p. ground (arith, int_eq.beq_iff (pos 20000) p, int_eq.beq_iff (pos 20001) p);
  on_min = refl;
  on_max = refl;
}

abbrev ending : List Call
ending = removes ssh.id ∷ removes_session 3 ∷ []

run-Agree_example :
    Agree (run ssh_first ending) (run game_first ending)
    × (answers ssh_first ending ≡ answers game_first ending)
run-Agree_example =
    run-Agree ssh_first game_first ending ssh_first-IsValid game_first-IsValid both-Agree

abbrev ends_first : List Removal
ends_first = of_id ssh.id ∷ of_session 3 ∷ []

abbrev both_tunnels : ValidRegistry
both_tunnels = (ssh_first, ssh_first-IsValid)

remove_all-Takes_example :
    let after = removed ends_first both_tunnels in
    (remove_all (of_session 3 ∷ of_id ssh.id ∷ []) (table both_tunnels) ≡ table after)
    × (lookup_http after.0 (bytes "web")
        ≡ unless (takes_any ends_first) (lookup_http ssh_first (bytes "web")))
    × (lookup_tcp after.0 (pos 20001)
        ≡ unless (takes_any ends_first) (lookup_tcp ssh_first (pos 20001)))
remove_all-Takes_example =
    remove_all-Takes ends_first (of_session 3 ∷ of_id ssh.id ∷ []) both_tunnels (bytes "web")
      (pos 20001) (Perm.swap (of_session 3) (of_id ssh.id) [])
