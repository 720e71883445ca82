-- ===== src/Storage/Db/Schema.antt =====
-- src/storage/leveldb.cpp: reading back after batches and metadata.
use rex_coin.Base.{
  ◌≡◌, refl, ap, ◌∙◌, true, false, some, List, [], ◌∷◌, ◌++◌, inl, inr, if◌then◌else◌, All, Bytes,
  eqb, Bool-cases,
}
use rex_coin.Dict.{Dict, lookup, erase, lookup-insert, lookup-erase_ne}
use rex_coin.Storage.Db.{
  Db, Batch, empty_batch, batch_put, batch_del, put, get, set_meta, meta_key, apply_puts,
  apply_dels, write_batch,
}
use rex_coin.Storage.Db.Laws.{apply_puts-append, get-put}

-- The last put of a batch.
pub lookup-batch_put :
    (k j v : Bytes) (batch : Batch) (m : Dict Bytes)
    → lookup j (apply_puts (batch_put k v batch).puts m)
      ≡ (if eqb k j then some v else lookup j (apply_puts batch.puts m))
unfolding batch_put apply_puts
lookup-batch_put k j v batch m =
    ap (lookup j) (apply_puts-append batch.puts ((k, v) ∷ []) m)
    ∙ lookup-insert k j v (apply_puts batch.puts m)

pub dels-batch_put : (k v : Bytes) (batch : Batch) → (batch_put k v batch).dels ≡ batch.dels
unfolding batch_put
dels-batch_put k v batch = refl

-- What a batch with no deletions leaves to read.
pub get-write_batch_puts :
    (batch : Batch) (db : Db) (j : Bytes)
    → db.opened ≡ true
    → batch.dels ≡ []
    → get j (write_batch batch db).0 ≡ lookup j (apply_puts batch.puts db.memdb)
unfolding get write_batch apply_dels
get-write_batch_puts batch db j up none_deleted = rw (up, none_deleted)

pub apply_puts_empty : (m : Dict Bytes) → apply_puts empty_batch.puts m ≡ m
unfolding apply_puts
apply_puts_empty m = refl

-- A batch leaves the database open or closed as it was.
pub opened-write_batch : (batch : Batch) (db : Db) → (write_batch batch db).0.opened ≡ db.opened
unfolding write_batch
opened-write_batch batch db = elim (Bool-cases db.opened) [
  | inl up ↦ rw up refl
  | inr down ↦ rw down refl
]

lookup-apply_dels :
    (dels : List Bytes) (j : Bytes) (m : Dict Bytes)
    → All (λ k. eqb k j ≡ false) dels
    → lookup j (apply_dels dels m) ≡ lookup j m
unfolding apply_dels
lookup-apply_dels [] j m all = refl
lookup-apply_dels (k ∷ dels) j m all =
    lookup-apply_dels dels j (erase k m) all.1 ∙ lookup-erase_ne k j m all.0

-- What a batch of deletions leaves to read under a key that is none of them.
pub get-write_batch_dels :
    (batch : Batch) (db : Db) (j : Bytes)
    → batch.puts ≡ []
    → All (λ k. eqb k j ≡ false) batch.dels
    → get j (write_batch batch db).0 ≡ get j db
unfolding get write_batch apply_puts
get-write_batch_dels batch db j none_put all = elim (Bool-cases db.opened) [
  | inl up ↦ rw (up, none_put) (lookup-apply_dels batch.dels j db.memdb all)
  | inr down ↦ rw down refl
]

pub batch_del-parts :
    (k : Bytes) (batch : Batch)
    → ((batch_del k batch).puts ≡ batch.puts) × ((batch_del k batch).dels ≡ batch.dels ++ k ∷ [])
unfolding batch_del
batch_del-parts k batch = (refl, refl)

-- What the database says of its metadata and of the rest after a write of metadata.
pub get-set_meta :
    (k j v : Bytes) (db : Db)
    → db.opened ≡ true
    → (get j (set_meta k v db).0 ≡ (if eqb (meta_key k) j then some v else get j db))
      × ((set_meta k v db).0.opened ≡ true)
unfolding set_meta put
get-set_meta k j v db up = ((get-put db (meta_key k) j v up).1, rw up refl)
