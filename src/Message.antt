-- ===== src/Message.antt =====
-- src/graphlab/database/query_message.hpp and .cpp: the messages between client and server. An
-- archive is the sequence of the values written to it; reading a value of another type than the one
-- written, or past the end, is undefined. What save and load keep of a row is modelled where it is read.
use graphlabapi_graphlab.Prelude.{ℕ, Bool, List, [], ◌∷◌}
use graphlabapi_graphlab.Prelude.Run.{Run, ok, fault, ◌>>=◌}
use graphlabapi_graphlab.Row.{Row, Field, copy_row, archived_row, archived_rows}
use graphlabapi_graphlab.Server.{Adjacency}
use graphlabapi_graphlab.Server.Batch.{EdgeInsert}

-- `qm_cmd_type` and `qm_obj_type`
pub data Cmd : Type 0 where
  get set add bget bset badd admin : Cmd

pub data Obj : Type 0 where
  vertex edge vertex_adj vmirror shard nverts nedges vfield efield reset undefined : Obj

-- A value in an archive: a 64-bit id or count, an int, a bool, a row and so on.
pub data Item : Type 0 where
  id : ℕ → Item
  code : ℕ → Item
  flag : Bool → Item
  row : Row → Item
  field : Field → Item
  fields : List Field → Item
  shard_ids : List ℕ → Item
  adjacency : Adjacency → Item
  ids : List ℕ → Item
  codes : List ℕ → Item
  rows : List Row → Item
  id_rows : List (ℕ × Row) → Item
  edge_inserts : List EdgeInsert → Item
  mirror_inserts : List (ℕ × List ℕ) → Item

pub record QueryMessage : Type 0 where
  pub cmd : Cmd
  pub obj : Obj
  pub args : List Item

-- Rows go through the archive cell by cell; the other items come out as they went in. The elements
-- of a vector are loaded into fresh ones, which are copied to its end.
unfoldable pub archived_pairs : List (ℕ × Row) → Run (List (ℕ × Row))
unfolding archived_row copy_row
archived_pairs [] = ok []
archived_pairs ((x, data_row) ∷ pairs) = do
  loaded ← archived_row data_row
  r ← copy_row loaded
  rest ← archived_pairs pairs
  ok ((x, r) ∷ rest)

unfoldable pub archived_inserts : List EdgeInsert → Run (List EdgeInsert)
unfolding archived_row copy_row
archived_inserts [] = ok []
archived_inserts (e ∷ inserts) = do
  loaded ← archived_row e.row
  r ← copy_row loaded
  rest ← archived_inserts inserts
  ok (record e { row = r } ∷ rest)

-- `qm >> value` and `iarc >> value`: the value and what follows it.
abbrev pub Reader : Type 0 → Type 0
Reader A = List Item → Run (A × List Item)

unfoldable pub read_id : Reader ℕ
read_id (Item.id x ∷ rest) = ok (x, rest)
read_id _ = fault

unfoldable pub read_code : Reader ℕ
read_code (Item.code x ∷ rest) = ok (x, rest)
read_code _ = fault

unfoldable pub read_flag : Reader Bool
read_flag (Item.flag x ∷ rest) = ok (x, rest)
read_flag _ = fault

unfoldable pub read_row : Reader Row
read_row (Item.row x ∷ rest) = do r ← archived_row x; ok (r, rest)
read_row _ = fault

unfoldable pub read_field : Reader Field
read_field (Item.field x ∷ rest) = ok (x, rest)
read_field _ = fault

unfoldable pub read_fields : Reader (List Field)
read_fields (Item.fields x ∷ rest) = ok (x, rest)
read_fields _ = fault

unfoldable pub read_shard_ids : Reader (List ℕ)
read_shard_ids (Item.shard_ids x ∷ rest) = ok (x, rest)
read_shard_ids _ = fault

unfoldable pub read_adjacency : Reader Adjacency
read_adjacency (Item.adjacency x ∷ rest) = ok (x, rest)
read_adjacency _ = fault

unfoldable pub read_ids : Reader (List ℕ)
read_ids (Item.ids x ∷ rest) = ok (x, rest)
read_ids _ = fault

unfoldable pub read_codes : Reader (List ℕ)
read_codes (Item.codes x ∷ rest) = ok (x, rest)
read_codes _ = fault

unfoldable pub read_rows : Reader (List Row)
read_rows (Item.rows x ∷ rest) = do r ← archived_rows x; ok (r, rest)
read_rows _ = fault

unfoldable pub read_id_rows : Reader (List (ℕ × Row))
read_id_rows (Item.id_rows x ∷ rest) = do r ← archived_pairs x; ok (r, rest)
read_id_rows _ = fault

unfoldable pub read_edge_inserts : Reader (List EdgeInsert)
read_edge_inserts (Item.edge_inserts x ∷ rest) = do r ← archived_inserts x; ok (r, rest)
read_edge_inserts _ = fault

unfoldable pub read_mirror_inserts : Reader (List (ℕ × List ℕ))
read_mirror_inserts (Item.mirror_inserts x ∷ rest) = ok (x, rest)
read_mirror_inserts _ = fault
