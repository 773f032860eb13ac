-- ===== src/DataPath/Accepting.antt =====
-- acceptTCP of internal/server/tcp.go, call by call of Accept.
use lotun.Base.{
  Bool, true, false, ◌≡◌, refl, sym, ap, ap₂, ◌∙◌, List, [], ◌∷◌, ◌++◌, Option, none, some,
  if◌then◌else◌, All, elem, Bool-cases, inl, inr,
}
use lotun.Base.Int.{ℤ}
use lotun.Base.Bytes.{Bytes, bytes_eq}
use lotun.Registry.{Registry, Tunnel, lookup_tcp}
use lotun.Registry.Valid.{IsValid}
use lotun.Http.{accepts_tcp}
use lotun.Http.Hosts.{IsPlain}
use lotun.Http.Tcp.{accepts_tcp_lem}
use lotun.Splice.{Conn, close}
use mathlib.Core.List.{append_assoc, append-nil}

-- The connections that went to spliceTCP, those that were refused, and whether the loop has returned.
pub record Accepting : Type 0 where
  pub handed : List Conn
  pub refused : List Conn
  pub returned : Bool

-- One turn of the loop: Accept gives an error, or a connection from an address.
unfoldable pub accept_tcp : Tunnel → Accepting → Option (Bytes × Conn) → Accepting
accept_tcp tn s none = record s { returned = true }
accept_tcp tn s (some (addr, conn)) =
    if s.returned
    then s
    else (if accepts_tcp tn addr
        then record s { handed = s.handed ++ (conn ∷ []) }
        else record s { refused = s.refused ++ (close conn ∷ []) })

unfoldable pub accept_all : Tunnel → Accepting → List (Option (Bytes × Conn)) → Accepting
accept_all tn s [] = s
accept_all tn s (a ∷ rest) = accept_all tn (accept_tcp tn s a) rest

abbrev pub accepting : Accepting
accepting = record { handed = []; refused = []; returned = false }

-- A visitor comes from a port of an address.
pub record Visitor : Type 0 where
  pub ip : Bytes
  pub port : Bytes
  pub conn : Conn

abbrev pub arrivals : List Visitor → List (Option (Bytes × Conn))
arrivals [] = []
arrivals (v ∷ vs) = some (v.ip ++ (b':' ∷ v.port), v.conn) ∷ arrivals vs

abbrev pub HasPlainAddress : Visitor → Type 0
HasPlainAddress v = IsPlain v.ip × IsPlain v.port

-- Who may reach a tunnel.
abbrev pub may_enter : Tunnel → Visitor → Bool
may_enter tn v = if tn.private then elem v.ip tn.allow_ips else true

abbrev pub admitted : Tunnel → List Visitor → List Conn
admitted tn [] = []
admitted tn (v ∷ vs) = if may_enter tn v then v.conn ∷ admitted tn vs else admitted tn vs

abbrev pub turned_away : Tunnel → List Visitor → List Conn
turned_away tn [] = []
turned_away tn (v ∷ vs) =
    if may_enter tn v then turned_away tn vs else close v.conn ∷ turned_away tn vs

ignores :
    (tn : Tunnel) (s : Accepting) (a : Option (Bytes × Conn))
    → s.returned ≡ true
    → accept_tcp tn s a ≡ s
unfolding accept_tcp
ignores tn s none over = ap (λ b. record s { returned = b }) (sym over)
ignores tn s (some (addr, conn)) over = rw over refl

after_return :
    (tn : Tunnel) (s : Accepting) (late : List (Option (Bytes × Conn)))
    → s.returned ≡ true
    → accept_all tn s late ≡ s
unfolding accept_all
after_return tn s [] over = refl
after_return tn s (a ∷ late) over = rw (ignores tn s a over) (after_return tn s late over)

module _ (r : Registry) (p : ℤ) (tn : Tunnel) (valid : IsValid r)
    (routed : lookup_tcp r p ≡ some tn) where
  accepts-may_enter :
      (v : Visitor) → HasPlainAddress v → accepts_tcp tn (v.ip ++ (b':' ∷ v.port)) ≡ may_enter tn v
  accepts-may_enter v (hi, hp) =
      let (private, public) = accepts_tcp_lem r p tn v.ip v.port valid routed hi hp in
      elim (Bool-cases tn.private) [
        | inl closed ↦
            let listed : may_enter tn v ≡ elem v.ip tn.allow_ips = rw closed refl in
            private closed ∙ sym listed
        | inr everyone ↦
            let anyone : may_enter tn v ≡ true = rw everyone refl in public everyone ∙ sym anyone
      ]

  errs : (s : Accepting) → accept_tcp tn s none ≡ record s { returned = true }
  unfolding accept_tcp
  errs s = refl

  hands :
      (s : Accepting) (addr : Bytes) (conn : Conn)
      → s.returned ≡ false
      → accepts_tcp tn addr ≡ true
      → accept_tcp tn s (some (addr, conn)) ≡ record s { handed = s.handed ++ (conn ∷ []) }
  unfolding accept_tcp
  hands s addr conn goes taken = cc

  refuses :
      (s : Accepting) (addr : Bytes) (conn : Conn)
      → s.returned ≡ false
      → accepts_tcp tn addr ≡ false
      → accept_tcp tn s (some (addr, conn)) ≡ record s { refused = s.refused ++ (close conn ∷ []) }
  unfolding accept_tcp
  refuses s addr conn goes shut = cc

  sorted :
      (vs : List Visitor) (s : Accepting) (late : List (Option (Bytes × Conn)))
      → All HasPlainAddress vs
      → s.returned ≡ false
      → accept_all tn s (arrivals vs ++ (none ∷ late)) ≡ (record {
        handed = s.handed ++ admitted tn vs;
        refused = s.refused ++ turned_away tn vs;
        returned = true;
      })
  unfolding accept_all
  sorted [] s late h goes = rw (errs s) (
      after_return tn (record s { returned = true }) late refl
      ∙ ap₂ (λ x y. record s { handed = x; refused = y; returned = true })
          (sym (append-nil s.handed)) (sym (append-nil s.refused)))
  sorted (v ∷ vs) s late (h, hs) goes = elim (Bool-cases (may_enter tn v)) [
    | inl enters ↦
        ap (λ x. accept_all tn x (arrivals vs ++ (none ∷ late)))
          (hands s _ v.conn goes (accepts-may_enter v h ∙ enters))
        ∙ rw enters (
            sorted vs (record s { handed = s.handed ++ (v.conn ∷ []) }) late hs goes
            ∙ ap
                (λ x. record s {
                  handed = x;
                  refused = s.refused ++ turned_away tn vs;
                  returned = true;
                })
                (append_assoc s.handed (v.conn ∷ []) (admitted tn vs)))
    | inr stays ↦
        ap (λ x. accept_all tn x (arrivals vs ++ (none ∷ late)))
          (refuses s _ v.conn goes (accepts-may_enter v h ∙ stays))
        ∙ rw stays (
            sorted vs (record s { refused = s.refused ++ (close v.conn ∷ []) }) late hs goes
            ∙ ap
                (λ x. record s {
                  handed = s.handed ++ admitted tn vs;
                  refused = x;
                  returned = true;
                })
                (append_assoc s.refused (close v.conn ∷ []) (turned_away tn vs)))
  ]

  -- On a valid table, acceptTCP of a routed tcp tunnel, for visitors from addresses without
  -- colons or brackets and then an error of Accept, whatever Accept would give later: spliceTCP
  -- gets, in order, the connections of exactly the visitors whose address is on the tunnel's
  -- list, or of all if it is public; the others are closed; and the loop returns.
  pub accept_all-Sorts :
      (vs : List Visitor) (late : List (Option (Bytes × Conn)))
      → All HasPlainAddress vs
      → accept_all tn accepting (arrivals vs ++ (none ∷ late))
        ≡ (record { handed = admitted tn vs; refused = turned_away tn vs; returned = true })
  accept_all-Sorts vs late h = sorted vs accepting late h refl
