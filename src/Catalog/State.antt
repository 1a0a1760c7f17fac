-- ===== src/Catalog/State.antt =====
-- `CatalogState` of crates/catalog/src/catalog.rs, what is looked up in it, and what creating a
-- table or an index does to it once their rows are written.
use simple_rdbms.Common.{ℕ, ◌+◌, Option, none, some, List, [], ◌∷◌, ◌++◌, ◌==◌}
use simple_rdbms.Common.{Result, ok, err, if◌then◌else◌, ltb}
use simple_rdbms.Common.Map.{Map, nat_eq, bytes_eq, get, insert}
use simple_rdbms.Ids.{TableId, IndexId, PageId, Rid}
use simple_rdbms.Sql.Ast.{Name}
use simple_rdbms.Catalog.Schema.{Schema, TableInfo, IndexInfo}

-- The texts `table id N` and `index id N` are constructors.
pub data CatalogError : Type 0 where
  table_already_exists table_not_found : Name → CatalogError
  table_id_not_found : TableId → CatalogError
  index_already_exists index_not_found : Name → CatalogError
  index_id_not_found : IndexId → CatalogError

pub record CatalogState : Type 0 where
  pub tables_by_name : Map Name TableInfo
  pub tables_by_id : Map TableId Name
  pub next_table_id : ℕ
  pub catalog_first_page : Option PageId
  pub indexes_by_name : Map Name IndexInfo
  pub indexes_by_id : Map IndexId Name
  pub indexes_by_table : Map TableId (List IndexId)
  pub next_index_id : ℕ
  pub index_catalog_first_page : Option PageId

abbrev pub empty_state : CatalogState
empty_state = record {
  tables_by_name = [];
  tables_by_id = [];
  next_table_id = 0;
  catalog_first_page = none;
  indexes_by_name = [];
  indexes_by_id = [];
  indexes_by_table = [];
  next_index_id = 0;
  index_catalog_first_page = none;
}

abbrev pub max_of : ℕ → ℕ → ℕ
max_of a b = if ltb a b then b else a

-- `entry(table_id).or_default()`
abbrev pub or_no_ids : Option (List IndexId) → List IndexId
or_no_ids none = []
or_no_ids (some ids) = ids

unfoldable pub insert_table : CatalogState → TableInfo → CatalogState
unfolding insert
insert_table s info = record s {
  next_table_id = max_of s.next_table_id (info.table_id + 1);
  tables_by_id = insert info.table_id info.name s.tables_by_id;
  tables_by_name = insert info.name info s.tables_by_name;
}

unfoldable pub insert_index : CatalogState → IndexInfo → CatalogState
unfolding get insert
insert_index s info = record s {
  next_index_id = max_of s.next_index_id (info.index_id + 1);
  indexes_by_id = insert info.index_id info.name s.indexes_by_id;
  indexes_by_table =
      insert info.table_id (or_no_ids (get info.table_id s.indexes_by_table) ++ info.index_id ∷ [])
        s.indexes_by_table;
  indexes_by_name = insert info.name info s.indexes_by_name;
}

unfoldable pub table_by_name : CatalogState → Name → Result CatalogError TableInfo
unfolding get
table_by_name s name = elim (get name s.tables_by_name) [
  | some info ↦ ok info
  | none ↦ err (table_not_found name)
]

unfoldable pub table_by_id : CatalogState → TableId → Result CatalogError TableInfo
unfolding get table_by_name
table_by_id s table_id = elim (get table_id s.tables_by_id) [
  | none ↦ err (table_id_not_found table_id)
  | some name ↦ table_by_name s name
]

unfoldable pub index_by_id : CatalogState → IndexId → Result CatalogError IndexInfo
unfolding get
index_by_id s index_id = elim (get index_id s.indexes_by_id) [
  | none ↦ err (index_id_not_found index_id)
  | some name ↦ elim (get name s.indexes_by_name) [
    | none ↦ err (index_id_not_found index_id)
    | some info ↦ ok info
  ]
]

-- `indexes_by_id.get(index_id)` and `indexes_by_name.get(name)` where a miss is skipped.
unfoldable pub info_of : CatalogState → IndexId → Option IndexInfo
unfolding get
info_of s index_id = elim (get index_id s.indexes_by_id) [
  | none ↦ none
  | some name ↦ get name s.indexes_by_name
]

-- The `find_map` of `index_for_column`.
unfoldable pub first_on_column : CatalogState → List IndexId → ℕ → Option IndexInfo
unfolding info_of
first_on_column s [] column_index = none
first_on_column s (index_id ∷ ids) column_index =
    let rest = first_on_column s ids column_index in
    elim (info_of s index_id) [
      | none ↦ rest
      | some info ↦ if info.column_index == column_index then some info else rest
    ]

unfoldable pub index_for_column : CatalogState → TableId → ℕ → Option IndexInfo
unfolding get first_on_column
index_for_column s table_id column_index = elim (get table_id s.indexes_by_table) [
  | none ↦ none
  | some ids ↦ first_on_column s ids column_index
]

-- The `filter_map`s of `indexes_for_table`.
unfoldable pub infos_of : CatalogState → List IndexId → List IndexInfo
unfolding info_of
infos_of s [] = []
infos_of s (index_id ∷ ids) = elim (info_of s index_id) [
  | none ↦ infos_of s ids
  | some info ↦ info ∷ infos_of s ids
]

unfoldable pub indexes_for_table : CatalogState → TableId → List IndexInfo
unfolding get infos_of
indexes_for_table s table_id = infos_of s (or_no_ids (get table_id s.indexes_by_table))

-- `create_table` where the heap of the table starts at the page, the catalog's heap at
-- `catalog_first_page`, and the row of the table is written to it.
unfoldable pub create_table :
    CatalogState
    → Name
    → Schema
    → (first_page_id catalog_first_page : PageId) → Result CatalogError TableInfo × CatalogState
unfolding get insert_table
create_table s name schema first_page_id catalog_first_page = elim (get name s.tables_by_name) [
  | some info ↦ (err (table_already_exists name), s)
  | none ↦
      let info : TableInfo = record {
        table_id = s.next_table_id;
        name = name;
        schema = schema;
        first_page_id = first_page_id;
      } in
      (ok info, insert_table (record s { catalog_first_page = some catalog_first_page }) info)
]

-- `create_index_with_root` where the row of the index is written at `catalog_rid`, its last four
-- bytes at `root_page_id_offset`.
unfoldable pub create_index_with_root :
    CatalogState
    → Name
    → TableId
    → ℕ
    → PageId
    → (index_catalog_first_page : PageId) (catalog_rid : Rid) (root_page_id_offset : ℕ)
    → Result CatalogError IndexInfo × CatalogState
unfolding get insert_index
create_index_with_root s name table_id column_index root first_page rid offset =
    elim (get name s.indexes_by_name) [
      | some info ↦ (err (index_already_exists name), s)
      | none ↦
          let info : IndexInfo = record {
            index_id = s.next_index_id;
            name = name;
            table_id = table_id;
            column_index = column_index;
            catalog_rid = rid;
            root_page_id_offset = offset;
            root_page_id = root;
          } in
          (ok info, insert_index (record s { index_catalog_first_page = some first_page }) info)
    ]
