-- ===== src/Store.antt =====
-- internal/store/store.go: the records by name, in memory and as last written to disk. What
-- saveLocked meets (marshalling, the nonce, the temporary file, its rename) is one Boolean: whether
-- it gives no error. The rename is atomic, so a failed save leaves the file as it was.
pub mod File
mod Examples
use ccbroker.Base.{
  String, Bool, Option, none, some, List, Dict, lookup, insert, erase, values, if◌then◌else◌,
}
use ccbroker.Creds.{Record}

pub record Store : Type 0 where
  pub data_map : Dict Record
  pub disk : Dict Record

-- Get
unfoldable pub get : String → Store → Option Record
get name s = lookup name s.data_map

-- List
unfoldable pub list : Store → List Record
list s = values s.data_map

-- saveLocked
unfoldable pub save : Bool → Store → Store × Bool
save saved s = (if saved then record s { disk = s.data_map } else s, saved)

-- Put
unfoldable pub put : Bool → Record → Store → Store × Bool
unfolding save
put saved r s = save saved (record s { data_map = insert r.name r s.data_map })

abbrev erase_saved : Bool → String → Store → Store × Bool
erase_saved saved name s = save saved (record s { data_map = erase name s.data_map })

abbrev delete_found : Bool → String → Store → Option Record → Store × Option Bool
delete_found saved name s none = (s, none)
delete_found saved name s (some r) = let (s', done) = erase_saved saved name s in (s', some done)

-- Delete: `none` where there is no such record, else whether the save succeeded.
unfoldable pub delete : Bool → String → Store → Store × Option Bool
unfolding get
delete saved name s = delete_found saved name s (get name s)
