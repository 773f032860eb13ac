-- ===== src/Cli/Table.antt =====
-- The table of `lotun status` in cmd/lotun/commands.go, as text/tabwriter lays it out.
use lotun.Base.{
  ℕ, zero, suc, ◌+◌, ◌-◌, ◌≤◌, ◌≡◌, List, [], ◌∷◌, ◌++◌, map, arith, All, length, length-append,
  if◌then◌else◌, leb, ◌==◌,
}
use lotun.Base.Bytes.{Bytes, bytes, bytes_eq}
use lotun.Base.Decimal.{itoa}
use lotun.Protocol.{TunnelInfo}

-- One line: the cells that a tab ends, and the last one.
pub record Row : Type 0 where
  pub subdomain : Bytes
  pub type : Bytes
  pub public : Bytes
  pub local_port : Bytes

abbrev pub header : Row
header = record {
  subdomain = bytes "SUBDOMAIN";
  type = bytes "TYPE";
  public = bytes "PUBLIC";
  local_port = bytes "LOCAL PORT";
}

unfoldable pub row_of : TunnelInfo → Row
row_of t = record {
  subdomain = t.subdomain;
  type = t.type;
  public = if t.public_url == [] then itoa t.port else t.public_url;
  local_port = itoa t.local_port;
}

-- The longest cell of a column, in bytes, which are characters where the text is ASCII.
unfoldable pub widest : (Row → Bytes) → List Row → ℕ
widest cell [] = 0
widest cell (r ∷ rs) =
    let rest = widest cell rs in if leb (length (cell r)) rest then rest else length (cell r)

abbrev pub spaces : ℕ → Bytes
spaces zero = []
spaces (suc n) = b' ' ∷ spaces n

-- A cell in a column of a width.
unfoldable pub pad : ℕ → Bytes → Bytes
pad width cell = cell ++ spaces (width - length cell)

-- tabwriter.NewWriter(out, 0, 4, 2, ' ', 0): a column is two wider than its longest cell.
abbrev pub column : (Row → Bytes) → List Row → ℕ
column cell rows = widest cell rows + 2

unfoldable pub line_of : List Row → Row → Bytes
unfolding widest pad
line_of rows r =
    pad (column (λ x. x.subdomain) rows) r.subdomain
    ++ (pad (column (λ x. x.type) rows) r.type
        ++ (pad (column (λ x. x.public) rows) r.public ++ (r.local_port ++ bytes "\n")))

abbrev pub concat : List Bytes → Bytes
concat [] = []
concat (t ∷ ts) = t ++ concat ts

unfoldable pub table : List TunnelInfo → Bytes
unfolding row_of line_of
table ts = let rows = header ∷ map row_of ts in concat (map (line_of rows) rows)

length-spaces : (n : ℕ) → length (spaces n) ≡ n
length-spaces zero = omega arith
length-spaces (suc n) = omega (arith, length-spaces n)

length-pad : (width : ℕ) (cell : Bytes) → length cell ≤ width → length (pad width cell) ≡ width
unfolding pad
length-pad width cell le =
    omega (
      arith,
      length-append cell (spaces (width - length cell)),
      length-spaces (width - length cell),
    )

pub widest-bounds :
    (cell : Row → Bytes) (n : ℕ) (rows : List Row)
    → widest cell rows ≤ n
    → All (λ r. length (cell r) ≤ n) rows
unfolding widest
widest-bounds cell n [] h = tt
widest-bounds cell n (r ∷ rs) h = (ground arith, widest-bounds cell n rs (ground arith))

-- The columns of a table line up: in each line, every cell that is not the last fills its column.
abbrev pub LinesUp : List Row → Row → Type 0
LinesUp rows r =
    (length (pad (column (λ x. x.subdomain) rows) r.subdomain) ≡ column (λ x. x.subdomain) rows)
    × (length (pad (column (λ x. x.type) rows) r.type) ≡ column (λ x. x.type) rows)
    × (length (pad (column (λ x. x.public) rows) r.public) ≡ column (λ x. x.public) rows)

lines_up :
    (all rows : List Row)
    → All (λ r. length r.subdomain ≤ column (λ x. x.subdomain) all) rows
    → All (λ r. length r.type ≤ column (λ x. x.type) all) rows
    → All (λ r. length r.public ≤ column (λ x. x.public) all) rows
    → All (LinesUp all) rows
lines_up all [] hs ht hp = tt
lines_up all (r ∷ rs) (s, hs) (t, ht) (p, hp) = (
  (
    length-pad (column (λ x. x.subdomain) all) r.subdomain s,
    length-pad (column (λ x. x.type) all) r.type t,
    length-pad (column (λ x. x.public) all) r.public p,
  ),
  lines_up all rs hs ht hp,
)

pub table-LinesUp : (rows : List Row) → All (LinesUp rows) rows
table-LinesUp rows =
    lines_up rows rows (widest-bounds (λ x. x.subdomain) _ rows (omega arith))
      (widest-bounds (λ x. x.type) _ rows (omega arith))
      (widest-bounds (λ x. x.public) _ rows (omega arith))
