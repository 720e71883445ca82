-- ===== src/Tests/Database.antt =====
-- src/storage/leveldb.cpp: the theorems on a database of two keys.
use rex_coin.Base.Text.{eqb}
use rex_coin.Base.{refl, true, [], ◌∷◌, codes}
use rex_coin.Dict.{lookup, NodupKeys}
use rex_coin.Storage.Db.{Db}

abbrev two_keys : Db
two_keys = record {
  opened = true;
  db_path = codes "./data/chaindata";
  memdb = (codes "b:1", codes "one") ∷ (codes "b:2", codes "two") ∷ [];
}

distinct : NodupKeys two_keys.memdb
unfolding eqb lookup
distinct = (refl, (refl, tt))
