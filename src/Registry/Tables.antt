-- ===== src/Registry/Tables.antt =====
-- The tables of internal/server/registry.go without the order of their entries: valid tables up to
-- what their lookups answer.
use lotun.Base.{
  List, [], ◌∷◌, false, ◌||◌, ℕ, Bool, ◌≡◌, refl, sym, ap, ◌∙◌, List, [], Option, none, some, arith,
  ◌==◌, nat_eq,
}
use lotun.Base.Int.{ℤ, pos}
use lotun.Base.Bytes.{Bytes, bytes_eq}
use lotun.Dict.Laws.{unless}
use lotun.Registry.{Registry, Tunnel, lookup_http, lookup_tcp, remove, remove_session}
use lotun.Registry.Valid.{IsValid}
use lotun.Registry.Removal.{remove_lem, remove_session_lem}
use lotun.Registry.History.{Call, removes, removes_session, apply, apply-IsValid}
use lotun.Registry.Order.{Agree, apply-Agree}
use mathlib.Core.List.{foldr, Perm}
use mathlib.Core.List.Perm
use mathlib.Core.Quot
use mathlib.Core.Quot.{Quot, Quot-set}

abbrev pub ValidRegistry : Type 0
ValidRegistry = (r : Registry) × IsValid r

abbrev pub Table : Type 0
Table = Quot {α = ValidRegistry} (λ t t'. Agree t.0 t'.0)

abbrev pub table : ValidRegistry → Table
table t = Quot.mk t

abbrev pub called : Call → ValidRegistry → ValidRegistry
called c (r, v) = (apply r c, apply-IsValid r c v)

-- A call on a table: it does not depend on the order of the entries.
unfoldable pub call : Call → Table → Table
call c =
    Quot.lift Quot-set (λ t. Quot.mk (called c t))
      (λ t t' a. Quot.sound (apply-Agree t.0 t'.0 c t.1 t'.1 a).0)

-- The calls that take tunnels away.
pub data Removal : Type 0 where
  of_id : Bytes → Removal
  of_session : ℕ → Removal

abbrev pub as_call : Removal → Call
as_call (of_id id) = removes id
as_call (of_session sess) = removes_session sess

abbrev pub takes : Removal → Tunnel → Bool
takes (of_id id) tn = tn.id == id
takes (of_session sess) tn = tn.session == sess

removes-lookups :
    (x : Removal) (r : Registry) (s : Bytes) (p : ℤ)
    → IsValid r
    → (lookup_http (apply r (as_call x)) s ≡ unless (takes x) (lookup_http r s))
      × (lookup_tcp (apply r (as_call x)) p ≡ unless (takes x) (lookup_tcp r p))
unfolding apply
removes-lookups (of_id id) r s p v = remove_lem r id s p v
removes-lookups (of_session sess) r s p v =
    let (h, t, _) = remove_session_lem r sess s p v in (h, t)

unless_comm :
    (f g : Tunnel → Bool) (o : Option Tunnel) → unless f (unless g o) ≡ unless g (unless f o)
unless_comm f g none = refl
unless_comm f g (some tn) = ground arith

range_kept :
    (x : Removal) (r : Registry)
    → ((apply r (as_call x)).port_min ≡ r.port_min) × ((apply r (as_call x)).port_max ≡ r.port_max)
unfolding apply remove remove_session
range_kept (of_id id) r = (refl, refl)
range_kept (of_session sess) r = (refl, refl)

removals-Agree :
    (x y : Removal) (r : Registry)
    → IsValid r
    → Agree (apply (apply r (as_call y)) (as_call x)) (apply (apply r (as_call x)) (as_call y))
removals-Agree x y r v =
    let rx = apply r (as_call x) in
    let ry = apply r (as_call y) in
    let vx = apply-IsValid r (as_call x) v in
    let vy = apply-IsValid r (as_call y) v in
    record {
      on_http = λ s.
          (removes-lookups x ry s (pos 0) vy).0
          ∙ ap (unless (takes x)) (removes-lookups y r s (pos 0) v).0
          ∙ unless_comm (takes x) (takes y) _
          ∙ ap (unless (takes y)) (sym (removes-lookups x r s (pos 0) v).0)
          ∙ sym (removes-lookups y rx s (pos 0) vx).0;
      on_tcp = λ p.
          (removes-lookups x ry [] p vy).1
          ∙ ap (unless (takes x)) (removes-lookups y r [] p v).1
          ∙ unless_comm (takes x) (takes y) _
          ∙ ap (unless (takes y)) (sym (removes-lookups x r [] p v).1)
          ∙ sym (removes-lookups y rx [] p vx).1;
      on_min =
          (range_kept x ry).0
          ∙ (range_kept y r).0
          ∙ sym (range_kept x r).0
          ∙ sym (range_kept y rx).0;
      on_max =
          (range_kept x ry).1
          ∙ (range_kept y r).1
          ∙ sym (range_kept x r).1
          ∙ sym (range_kept y rx).1;
    }

removals_comm :
    (x y : Removal) (t : Table)
    → call (as_call x) (call (as_call y) t) ≡ call (as_call y) (call (as_call x) t)
unfolding call
removals_comm x y = Quot.ind (λ t. Quot-set _ _) (λ t. Quot.sound (removals-Agree x y t.0 t.1))

-- Some removals, one after the other, the last of the list first.
unfoldable pub remove_all : List Removal → Table → Table
remove_all xs t = foldr (λ x. call (as_call x)) t xs

remove_all-Perm :
    (xs ys : List Removal) (t : Table) → Perm xs ys → remove_all xs t ≡ remove_all ys t
unfolding remove_all
remove_all-Perm xs ys t p = Perm.foldr-eq Quot-set (λ x. call (as_call x)) removals_comm p t

-- The same on a table with an order.
unfoldable pub removed : List Removal → ValidRegistry → ValidRegistry
removed [] t = t
removed (x ∷ xs) t = called (as_call x) (removed xs t)

abbrev pub takes_any : List Removal → Tunnel → Bool
takes_any [] tn = false
takes_any (x ∷ xs) tn = takes x tn || takes_any xs tn

unless_twice :
    (f g : Tunnel → Bool) (o : Option Tunnel)
    → unless f (unless g o) ≡ unless (λ tn. f tn || g tn) o
unless_twice f g none = refl
unless_twice f g (some tn) = ground arith

unless_never : (o : Option Tunnel) → o ≡ unless (λ tn. false) o
unless_never none = refl
unless_never (some tn) = refl

remove_all-removed :
    (xs : List Removal) (t : ValidRegistry) → remove_all xs (table t) ≡ table (removed xs t)
unfolding remove_all removed call
remove_all-removed [] t = refl
remove_all-removed (x ∷ xs) t = ap (call (as_call x)) (remove_all-removed xs t)

removed-lookups :
    (xs : List Removal) (t : ValidRegistry) (s : Bytes) (p : ℤ)
    → (lookup_http (removed xs t).0 s ≡ unless (takes_any xs) (lookup_http t.0 s))
      × (lookup_tcp (removed xs t).0 p ≡ unless (takes_any xs) (lookup_tcp t.0 p))
unfolding removed
removed-lookups [] t s p = (unless_never (lookup_http t.0 s), unless_never (lookup_tcp t.0 p))
removed-lookups (x ∷ xs) t s p =
    let (http, tcp) = removed-lookups xs t s p in
    let (http', tcp') = removes-lookups x (removed xs t).0 s p (removed xs t).1 in
    (
      http' ∙ ap (unless (takes x)) http ∙ unless_twice (takes x) (takes_any xs) _,
      tcp' ∙ ap (unless (takes x)) tcp ∙ unless_twice (takes x) (takes_any xs) _,
    )

-- Remove calls and RemoveSession calls, one after the other on a valid table: afterwards each
-- lookup answers as before except that exactly the tunnels that have one of the IDs or belong to
-- one of the sessions are gone; and the calls in any other order lead to the same table, as a
-- table whose entries have no order.
pub remove_all-Takes :
    (xs ys : List Removal) (t : ValidRegistry) (s : Bytes) (p : ℤ)
    → Perm xs ys
    → let (r, v) = removed xs t in
      (remove_all ys (table t) ≡ table (r, v))
      × (lookup_http r s ≡ unless (takes_any xs) (lookup_http t.0 s))
      × (lookup_tcp r p ≡ unless (takes_any xs) (lookup_tcp t.0 p))
remove_all-Takes xs ys t s p perm =
    let (http, tcp) = removed-lookups xs t s p in
    (sym (remove_all-Perm xs ys (table t) perm) ∙ remove_all-removed xs t, http, tcp)
