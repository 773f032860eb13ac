-- ===== src/Cli/Remote/Printed.antt =====
-- What `lotun status` of cmd/lotun/commands.go prints of the tunnels of a server.
use lotun.Base.{
  ℕ, zero, suc, ◌+◌, ◌-◌, ◌≤◌, ◌≡◌, refl, ap, ap₂, ◌∙◌, inl, inr, List, [], ◌∷◌, ◌++◌, map, All,
  arith, length, if◌then◌else◌, ◌==◌, Bool-cases,
}
use lotun.Base.Bytes.{Bytes, bytes, bytes_eq, eqb_bytes}
use lotun.Base.Decimal.{itoa}
use lotun.Protocol.{http}
use lotun.Registry.{Tunnel}
use lotun.Server.{Server, tunnel_info, http_url, tcp_url, host_of}
use lotun.Cli.Table.{
  Row, header, row_of, spaces, pad, column, line_of, concat, table, widest, widest-bounds,
}
use lotun.Cli.Remote.{status_output}

-- Where a tunnel is reached.
abbrev pub address : Server → Tunnel → Bytes
address s tn =
    let host = tn.subdomain ++ (b'.' ∷ s.base_domain) in
    if tn.type == http
    then bytes "https://" ++ host
    else bytes "tcp://" ++ (host ++ (b':' ∷ itoa tn.port))

abbrev pub blanks : ℕ → Bytes
blanks zero = []
blanks (suc n) = 32 ∷ blanks n

-- A cell filled up to a width.
abbrev pub cell : ℕ → Bytes → Bytes
cell width t = t ++ blanks (width - length t)

-- The widths of the columns that are filled.
pub record Widths : Type 0 where
  pub subdomain : ℕ
  pub type : ℕ
  pub public : ℕ

abbrev pub line : Widths → Bytes → Bytes → Bytes → Bytes → Bytes
line w a b c d = cell w.subdomain a ++ (cell w.type b ++ (cell w.public c ++ (d ++ bytes "\n")))

abbrev pub lines : Widths → Server → List Tunnel → Bytes
lines w s [] = []
lines w s (tn ∷ tns) =
    line w tn.subdomain tn.type (address s tn) (itoa tn.local_port) ++ lines w s tns

-- Each column is at least two wider than its cells.
abbrev pub Fits : Widths → Bytes → Bytes → Bytes → Type 0
Fits w a b c = (length a + 2 ≤ w.subdomain) × (length b + 2 ≤ w.type) × (length c + 2 ≤ w.public)

-- The output for the tunnels that a server lists.
abbrev pub Prints : Server → List Tunnel → Bytes → Type 0
Prints s [] out = out ≡ bytes "No active tunnels.\n"
Prints s (tn ∷ tns) out =
    (w : Widths) × (out
      ≡ line w (bytes "SUBDOMAIN") (bytes "TYPE") (bytes "PUBLIC") (bytes "LOCAL PORT")
        ++ lines w s (tn ∷ tns))
    × Fits w (bytes "SUBDOMAIN") (bytes "TYPE") (bytes "PUBLIC")
    × All (λ t. Fits w t.subdomain t.type (address s t)) (tn ∷ tns)

spaces-blanks : (n : ℕ) → spaces n ≡ blanks n
spaces-blanks zero = refl
spaces-blanks (suc n) = ap (◌∷◌ 32) (spaces-blanks n)

abbrev info_row : Server → Tunnel → Row
info_row s tn = row_of (tunnel_info s tn)

public-address : (s : Server) (tn : Tunnel) → (info_row s tn).public ≡ address s tn
unfolding row_of tunnel_info http_url tcp_url host_of eqb_bytes
public-address s tn = elim (Bool-cases (tn.type == http)) [
  | inl is_http ↦ rw is_http refl
  | inr other ↦ rw other refl
]

abbrev widths : List Row → Widths
widths rows = record {
  subdomain = column (λ x. x.subdomain) rows;
  type = column (λ x. x.type) rows;
  public = column (λ x. x.public) rows;
}

pad-cell : (width : ℕ) (t : Bytes) → pad width t ≡ cell width t
unfolding pad
pad-cell width t = ap (λ x. t ++ x) (spaces-blanks (width - length t))

line_of-line :
    (rows : List Row) (r : Row)
    → line_of rows r ≡ line (widths rows) r.subdomain r.type r.public r.local_port
unfolding line_of
line_of-line rows r =
    let w = widths rows in
    ap₂ (λ x y. x ++ y) (pad-cell w.subdomain r.subdomain)
      (ap₂ (λ x y. x ++ y) (pad-cell w.type r.type)
        (ap (λ x. x ++ (r.local_port ++ bytes "\n")) (pad-cell w.public r.public)))

rows-lines :
    (rows : List Row) (s : Server) (tns : List Tunnel)
    → concat (map (line_of rows) (map row_of (map (tunnel_info s) tns))) ≡ lines (widths rows) s tns
unfolding row_of tunnel_info
rows-lines rows s [] = refl
rows-lines rows s (tn ∷ tns) =
    ap₂ (λ x y. x ++ y)
      (line_of-line rows (info_row s tn)
        ∙ ap (λ x. line (widths rows) tn.subdomain tn.type x (itoa tn.local_port))
            (public-address s tn))
      (rows-lines rows s tns)

rows-Fits :
    (rows : List Row) (s : Server) (tns : List Tunnel)
    → All
        (λ r. length r.subdomain ≤ widest (λ x. x.subdomain) rows)
        (map row_of (map (tunnel_info s) tns))
    → All (λ r. length r.type ≤ widest (λ x. x.type) rows) (map row_of (map (tunnel_info s) tns))
    → All
        (λ r. length r.public ≤ widest (λ x. x.public) rows)
        (map row_of (map (tunnel_info s) tns))
    → All (λ t. Fits (widths rows) t.subdomain t.type (address s t)) tns
unfolding row_of tunnel_info
rows-Fits rows s [] hs ht hp = tt
rows-Fits rows s (tn ∷ tns) (a, hs) (b, ht) (c, hp) = (
  (omega arith, omega arith, rw (← public-address s tn) (omega arith)),
  rows-Fits rows s tns hs ht hp,
)

pub status_output-Prints :
    (s : Server) (tns : List Tunnel) → Prints s tns (status_output (map (tunnel_info s) tns))
unfolding table
status_output-Prints s [] = refl
status_output-Prints s (tn ∷ tns) =
    let rows = header ∷ map row_of (map (tunnel_info s) (tn ∷ tns)) in
    let subs =
      widest-bounds (λ x. x.subdomain) (widest (λ x. x.subdomain) rows) rows (omega arith) in
    let types = widest-bounds (λ x. x.type) (widest (λ x. x.type) rows) rows (omega arith) in
    let publics = widest-bounds (λ x. x.public) (widest (λ x. x.public) rows) rows (omega arith) in
    (
      widths rows,
      ap₂ (λ x y. x ++ y) (line_of-line rows header) (rows-lines rows s (tn ∷ tns)),
      (omega (arith, subs.0), omega (arith, types.0), omega (arith, publics.0)),
      rows-Fits rows s (tn ∷ tns) subs.1 types.1 publics.1,
    )
