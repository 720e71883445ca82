-- ===== src/Storage/Db/Laws.antt =====
-- src/storage/leveldb.cpp: reads after writes, single and in batches, and scans.
use rex_coin.Base.{
  ◌≡◌, refl, true, false, none, some, List, [], ◌∷◌, ◌++◌, inl, inr, if◌then◌else◌, Bytes, eqb,
  eqb_iff, Bool-cases,
}
use rex_coin.Dict.{Dict, insert, lookup-insert, lookup-erase_ne, lookup-erase_self, NodupKeys}
use rex_coin.Storage.Db.{Db, Batch, put, get, del, exists, close, apply_puts, write_batch}

-- On a closed database every write fails and changes nothing, and every read fails.
pub closed :
    (db : Db) (k v : Bytes) (batch : Batch)
    → let d = close db in
      (put k v d ≡ (d, false))
      × (del k d ≡ (d, false))
      × (write_batch batch d ≡ (d, false))
      × (get k d ≡ none)
      × (exists k d ≡ false)
unfolding close put del write_batch get exists
closed db k v batch = elim (Bool-cases db.opened) [
  | inl up ↦ rw up (refl, refl, refl, refl, refl)
  | inr down ↦ rw down (refl, refl, refl, refl, refl)
]

-- What reads give after a write, and that `put` succeeds on an open database.
pub get-put :
    (db : Db) (k j v : Bytes)
    → db.opened ≡ true
    → ((put k v db).1 ≡ true) × (get j (put k v db).0 ≡ (if eqb k j then some v else get j db))
unfolding put get
get-put db k j v up = rw up (refl, lookup-insert k j v db.memdb)

-- `del` reports whether the key was there, and takes it and nothing else away.
pub get-del :
    (db : Db) (k j : Bytes)
    → db.opened ≡ true
    → NodupKeys db.memdb
    → ((del k db).1 ≡ exists k db) × (get j (del k db).0 ≡ (if eqb k j then none else get j db))
unfolding del get exists
get-del db k j up distinct = elim (Bool-cases (eqb k j)) [
  | inl same ↦
      let e : k ≡ j = (eqb_iff k j).0 same in
      rw (up, same, ← e) (refl, lookup-erase_self k db.memdb distinct)
  | inr other ↦ rw (up, other) (refl, lookup-erase_ne k j db.memdb other)
]

pub apply_puts-append :
    (xs ys : List (Bytes × Bytes)) (m : Dict Bytes)
    → apply_puts (xs ++ ys) m ≡ apply_puts ys (apply_puts xs m)
unfolding apply_puts
apply_puts-append [] ys m = refl
apply_puts-append ((k, v) ∷ xs) ys m = apply_puts-append xs ys (insert k v m)
