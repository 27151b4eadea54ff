-- ===== src/Table.antt =====
-- A table of the database: its rows under their key, the newest first. The statements of
-- internal/repo that are modelled read one row by its key, insert a row, or update one.
pub mod Laws
use dex_backend.Base.{ℕ, ◌+◌, Bool, true, false, Option, none, some, List, [], ◌∷◌, if◌then◌else◌}
use dex_backend.Base.Key.{Key}

abbrev pub Table : Type 0 → Type 0 → Type 0
Table K R = List (K × R)

module _ {K R : Type 0} ⦃k : Key K⦄ where
  -- SELECT … WHERE key = $1
  unfoldable pub select : K → Table K R → Option R
  select i [] = none
  select i ((j, r) ∷ t) = if k.same j i then some r else select i t

  -- INSERT of a row under a key that no row has.
  unfoldable pub insert : K → R → Table K R → Table K R
  insert i r t = (i, r) ∷ t

  -- UPDATE … SET … WHERE key = $1
  unfoldable pub update : K → (R → R) → Table K R → Table K R
  update i g [] = []
  update i g ((j, r) ∷ t) = if k.same j i then (j, g r) ∷ t else (j, r) ∷ update i g t

module _ {K R : Type 0} where
  -- SUM(…) over the whole table.
  unfoldable pub sum : (K → R → ℕ) → Table K R → ℕ
  sum f [] = 0
  sum f ((j, r) ∷ t) = f j r + sum f t
