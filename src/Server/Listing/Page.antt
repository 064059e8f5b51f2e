-- ===== src/Server/Listing/Page.antt =====
-- The page of GetTransfer against the rows of the table.
use Prim.Native.Nat.{min}
use c_bridge_node.Base.{
  ℕ, zero, suc, ◌≡◌, refl, sym, ap, ◌∙◌, none, some, List, [], ◌∷◌, ◌++◌, map, arith, String,
}
use mathlib.Core.List.{Perm}
use mathlib.Core.Path.{subst}
use c_bridge_node.Base.Int.{◌≤ℤ◌}
use c_bridge_node.Base.Lists.{length, take, All}
use c_bridge_node.Transfer.{Row, scan_transfer}
use c_bridge_node.World.{World}
use c_bridge_node.Exec.{perform, ◌>>=◌}
use c_bridge_node.Dal.Queries.{newest_first, get_all_transfers_with_limit, query, rows_unless}
use c_bridge_node.Dal.Queries.Newest.{
  IsNewestFirst, behind, take-behind, behind-older, newest_first-Perm, newest_first-IsNewestFirst,
  take-IsNewestFirst, length-newest_first,
}
use c_bridge_node.Server.Listing.{
  page, line_of, limit_of, parse_uint, page_of, page_within, get_transfer_page,
}

length-take : (n : ℕ) (rs : List Row) → length (take n rs) ≡ min n (length rs)
length-take zero rs = omega arith
length-take (suc n) [] = omega arith
length-take (suc n) (r ∷ rs) = omega (arith, length-take n rs)

-- The page shows these rows: the newest of the table, as many as the limit allows, newest first. The
-- rest of the table is what it leaves out, none of it created after a row that is shown.
pub record Shows (table : List Row) (limit : ℕ) (rows : List Row) : Type 0 where
  pub rest : List Row
  pub whole : Perm (rows ++ rest) table
  pub newest : All (λ r. All (λ s. s.create_ts ≤ℤ r.create_ts) rest) rows
  pub ordered : IsNewestFirst rows
  pub size : length rows ≡ min (limit_of limit) (length table)

-- A request with a limit that is an uint64, where the database answers, is answered by a page of the
-- newest rows of the table, newest first: as many as the limit, 500 for the limit zero, or all if
-- there are fewer. The rows that it leaves out are the others of the table, and none of them was created
-- after one that it shows.
pub get_transfer_page_lem :
    (limit_string : String) (limit : ℕ) (w : World)
    → parse_uint limit_string ≡ some limit
    → w.env.db_fault w.steps ≡ none
    → (rows : List Row) × ((perform (get_transfer_page limit_string) w).0
        ≡ page (map line_of (map scan_transfer rows)))
      × Shows w.table limit rows
unfolding get_transfer_page page_within get_all_transfers_with_limit query rows_unless page_of ◌>>=◌
get_transfer_page_lem limit_string limit w parsed answers =
    let sorted = newest_first w.table in
    (
      take (limit_of limit) sorted,
      rw (parsed, answers) refl,
      record {
        rest = behind (limit_of limit) sorted;
        whole =
            subst (λ rows. Perm rows w.table) (sym (take-behind (limit_of limit) sorted))
              (newest_first-Perm w.table);
        newest = behind-older (limit_of limit) sorted (newest_first-IsNewestFirst w.table);
        ordered = take-IsNewestFirst (limit_of limit) sorted (newest_first-IsNewestFirst w.table);
        size =
            length-take (limit_of limit) sorted
            ∙ ap (min (limit_of limit)) (length-newest_first w.table);
      },
    )
