-- ===== src/Guardian/SystemHost/RoundTrip.antt =====
-- The table that netstat prints against what `routes` reads in it.
use mathlib.Core.Path.{◌∙◌, ap}
use bootmux.Base.{
  ◌≡◌, refl, ℕ, Bool, true, false, ◌||◌, some, List, [], ◌∷◌, ◌++◌, String, ◌<>◌, ◌==◌, All,
  All-map, All-mono, map, filter, arith, Bool-cases, inl, inr, eq_iff, if◌then◌else◌,
}
use bootmux.Base.Lines.{split_words}
use bootmux.Base.Lines.Printed.{
  IsWord, IsLine, spaced, indented, print_lines, split_lines-print_lines, split_words-word,
  split_words-indented, IsLine-append, IsWord-IsLine, IsLine-indented,
}
use bootmux.Base.Search.{consists}
use bootmux.Guardian.Data.{Route}
use bootmux.Guardian.SystemHost.Tables.{read_routes, rows_in, route_row, is_numeric}

-- A row of the table; behind the interface stands what the last column has, if anything. Behind each
-- of the four cells before it there is one space and any number of further ones, which may differ from
-- cell to cell and from row to row, as they do in aligned columns.
pub record Row : Type 0 where
  pub dest : String
  pub gateway : String
  pub flags : String
  pub netif : String
  pub expire : String
  pub after_dest : ℕ
  pub after_gateway : ℕ
  pub after_flags : ℕ
  pub after_netif : ℕ

abbrev pub IsRow : Row → Type 0
IsRow r = IsWord r.dest × IsWord r.gateway × IsWord r.flags × IsWord r.netif × IsLine r.expire

-- A cell, one space, and as many more as are given.
abbrev cell : ℕ → String → String → String
cell gap w rest = w <> spaced (indented gap rest)

unfoldable pub print_row : Row → String
print_row r = cell r.after_dest r.dest (
    cell r.after_gateway r.gateway
      (cell r.after_flags r.flags (cell r.after_netif r.netif r.expire)))

abbrev titles : List String
titles =
    "Routing tables" ∷ "" ∷ "Internet:"
    ∷ "Destination        Gateway            Flags               Netif Expire" ∷ []

-- `netstat -rn -f inet`
unfoldable pub netstat : List Row → String
netstat rows = print_lines (titles ++ map print_row rows)

abbrev pub as_route : Row → Route
as_route r = record {
  destination = some r.dest;
  gateway = some r.gateway;
  flags = r.flags;
  interface = some r.netif;
}

cell-words :
    (gap : ℕ) (w rest : String) → IsWord w → split_words (cell gap w rest) ≡ w ∷ split_words rest
cell-words gap w rest h =
    split_words-word w (indented gap rest) h ∙ ap (λ ws. w ∷ ws) (split_words-indented gap rest)

cell-IsLine : (gap : ℕ) (w rest : String) → IsWord w → IsLine rest → IsLine (cell gap w rest)
cell-IsLine gap w rest h k =
    IsLine-append w (spaced (indented gap rest)) (IsWord-IsLine w h)
      (let ih = IsLine-indented gap rest k in ground arith)

print_row-IsLine : (r : Row) → IsRow r → IsLine (print_row r)
unfolding print_row
print_row-IsLine r (a, b, c, d, e) = cell-IsLine r.after_dest r.dest _ a (
    cell-IsLine r.after_gateway r.gateway _ b
      (cell-IsLine r.after_flags r.flags _ c (cell-IsLine r.after_netif r.netif _ d e)))

print_row-words :
    (r : Row)
    → IsRow r
    → split_words (print_row r) ≡ r.dest ∷ r.gateway ∷ r.flags ∷ r.netif ∷ split_words r.expire
unfolding print_row
print_row-words r (a, b, c, d, e) =
    rw
      (
        cell-words r.after_dest r.dest _ a,
        cell-words r.after_gateway r.gateway _ b,
        cell-words r.after_flags r.flags _ c,
        cell-words r.after_netif r.netif _ d,
      )
      refl

-- The rows whose destination is an address or a network.
abbrev pub numeric : Row → Bool
numeric r = consists is_numeric r.dest

titled :
    (d : String) → (d == "Destination" || d == "Routing") ≡ true → consists is_numeric d ≡ false
titled d h = elim (Bool-cases (d == "Destination")) [
  | inl same ↦ let e : d ≡ "Destination" = (eq_iff d "Destination").0 same in rw e refl
  | inr other ↦ let e : d ≡ "Routing" = (eq_iff d "Routing").0 (ground arith) in rw e refl
]

read_row :
    (r : Row) (more : List String)
    → route_row (r.dest ∷ r.gateway ∷ r.flags ∷ r.netif ∷ more)
      ≡ (if numeric r then as_route r ∷ [] else [])
unfolding route_row
read_row r more = elim (Bool-cases (r.dest == "Destination" || r.dest == "Routing")) [
  | inl title ↦ rw (title, titled r.dest title) refl
  | inr plain ↦ rw plain refl
]

rows-read :
    (rows : List Row)
    → All IsRow rows
    → rows_in (map print_row rows) ≡ map as_route (filter numeric rows)
unfolding rows_in
rows-read [] h = refl
rows-read (r ∷ rows) (h, hs) =
    rw (print_row-words r h, read_row r (split_words r.expire), rows-read rows hs) (ground arith)

rows-titled : (lines : List String) → rows_in (titles ++ lines) ≡ rows_in lines
unfolding rows_in route_row split_words
rows-titled lines = refl

-- In a routing table with netstat's titles, whose cells are words with one or more spaces behind each,
-- as many as the row has for that cell, and with anything printable in the last column, `routes` reads
-- the rows in their order, without those whose destination is not made of digits, dots and slashes.
pub read_routes-netstat :
    (rows : List Row)
    → All IsRow rows
    → read_routes (netstat rows) ≡ map as_route (filter numeric rows)
unfolding read_routes netstat
read_routes-netstat rows h =
    let lines = split_lines-print_lines (titles ++ map print_row rows) (
      refl,
      (
        refl,
        (refl, (refl, All-map print_row IsLine rows (All-mono IsRow _ rows print_row-IsLine h))),
      ),
    ) in
    ap rows_in lines ∙ rows-titled (map print_row rows) ∙ rows-read rows h
