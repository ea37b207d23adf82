-- ===== src/Numbering/Unique.antt =====
-- No two rows share a number of the GLOBAL sequence: each function of shared/numbering.py that
-- takes a number keeps this, where no other transaction holds a row.
use gdi_backend.Prelude.{
  ℕ, ◌+◌, ◌≤◌, ◌≡◌, refl, true, false, Option, none, some, arith, ◌==◌, count_if, find_if,
}
use gdi_backend.Numbering.Format.{Text}
use gdi_backend.Numbering.Tables.{
  OfficialDocument, Numerator, user, citizen, Db, Constraint, official_documents_pkey,
  other_constraint, committed, committed-bind, Env, Request,
}
use gdi_backend.Numbering.Queries.{next_global_sequence, delete_own_cancelled}
use gdi_backend.Numbering.Reserve.{
  cancel_reserved, expired, live_row, insert_global, insert_document, raced, global_document,
  take_global, retry_global, reserve_global,
}
use gdi_backend.Numbering.Entry.{
  insert_citizen, take_citizen, retry_citizen, reserve_citizen, insert_confirmed, confirmed_raced,
  confirmed_document, take_confirmed,
}
use gdi_backend.Numbering.Special.{is_special}
use gdi_backend.Numbering.Lanes.{HasUniqueLanes, Shrinks-HasUniqueLanes, delete_own-Shrinks}
use gdi_backend.Numbering.Numbers.{
  HasUniqueNumbers, next_global_sequence-Shrinks, cancel_reserved-HasUniqueNumbers,
}
use gdi_backend.Numbering.Counting.{bit}
use gdi_backend.Numbering.Sequence.{
  holds, mixed, NobodyLocks, next_global_sequence-free, next_global_sequence-count-le,
  delete_own_cancelled-count-le,
}

-- The tables have room for the row: its number is held by no other.
record HasRoom (d : OfficialDocument) (db : Db) : Type 0 where
  fits : (y s : ℕ) → count_if (holds y s) db.documents + bit (holds y s d) ≤ 1
  unmixed : count_if mixed db.documents + bit (mixed d) ≡ 0
  special : HasUniqueLanes db

-- A row of the GLOBAL regime.
abbrev IsPlain : OfficialDocument → Type 0
IsPlain d = (d.special_number ≡ none) × (is_special d.regime ≡ false)

HasRoom-HasUniqueNumbers : (d : OfficialDocument) (db : Db) → HasRoom d db → HasUniqueNumbers db
HasRoom-HasUniqueNumbers d db room = record {
  sequences = record {
    at_most_one = λ y s. omega (arith, room.fits y s);
    unmixed = omega (arith, room.unmixed);
  };
  special = room.special;
}

insert-HasUniqueNumbers :
    (d : OfficialDocument) (db : Db)
    → IsPlain d
    → HasRoom d db
    → HasUniqueNumbers (insert_document d db)
insert-HasUniqueNumbers d db plain room = record {
  sequences = record {
    at_most_one = λ y s. ground (arith, room.fits y s);
    unmixed = ground (arith, room.unmixed);
  };
  special = record {
    at_most_one = λ t dp y s. ground (arith, room.special.at_most_one t dp y s);
    counted = λ t dp y s h. ground (arith, room.special.counted t dp y s);
    numbered = ground (arith, room.special.numbered);
  };
}

module _ (d : OfficialDocument) (db₀ db : Db) (u : HasUniqueNumbers db₀) (plain : IsPlain d)
    (room : HasRoom d db) where
  raced-HasUniqueNumbers :
      (c : Constraint) (o : Option OfficialDocument) (sequence : OfficialDocument → Option ℕ)
      → HasUniqueNumbers (committed db₀ (raced c db o sequence))
  raced-HasUniqueNumbers c none sequence = u
  raced-HasUniqueNumbers c (some e) sequence = HasRoom-HasUniqueNumbers d db room

  insert_global-HasUniqueNumbers :
      (env : Env) (c : Option Constraint)
      → HasUniqueNumbers (committed db₀ (insert_global env d db c))
  insert_global-HasUniqueNumbers env none = insert-HasUniqueNumbers d db plain room
  insert_global-HasUniqueNumbers env (some (other_constraint c)) = u
  insert_global-HasUniqueNumbers env (some official_documents_pkey) =
      raced-HasUniqueNumbers official_documents_pkey (find_if (live_row d.id) db.documents) _

  insert_citizen-HasUniqueNumbers :
      (c : Option Constraint) → HasUniqueNumbers (committed db₀ (insert_citizen d db c))
  insert_citizen-HasUniqueNumbers none = insert-HasUniqueNumbers d db plain room
  insert_citizen-HasUniqueNumbers (some c) = u

  confirmed_raced-HasUniqueNumbers :
      (o : Option OfficialDocument) → HasUniqueNumbers (committed db₀ (confirmed_raced db o))
  confirmed_raced-HasUniqueNumbers none = u
  confirmed_raced-HasUniqueNumbers (some e) = HasRoom-HasUniqueNumbers d db room

  insert_confirmed-HasUniqueNumbers :
      (c : Option Constraint) → HasUniqueNumbers (committed db₀ (insert_confirmed d db c))
  insert_confirmed-HasUniqueNumbers none = insert-HasUniqueNumbers d db plain room
  insert_confirmed-HasUniqueNumbers (some (other_constraint c)) = u
  insert_confirmed-HasUniqueNumbers (some official_documents_pkey) =
      confirmed_raced-HasUniqueNumbers (find_if (λ e. e.id == d.id) db.documents)

-- The sequence taken makes room for a row of that year and number.
next-HasRoom :
    (env : Env) (d : OfficialDocument) (year : ℕ) (db : Db)
    → NobodyLocks env
    → HasUniqueNumbers db
    → d.year ≡ year
    → d.global_sequence ≡ some (next_global_sequence env year db).0
    → mixed d ≡ false
    → HasRoom d (next_global_sequence env year db).1
next-HasRoom env d year db free u same number plain = record {
  fits = λ y s. ground (arith, next_global_sequence-free env year db free u.sequences y s);
  unmixed = ground (arith, u.sequences.unmixed, next_global_sequence-count-le mixed env year db);
  special =
      Shrinks-HasUniqueLanes db (next_global_sequence env year db).1
        (next_global_sequence-Shrinks env year db) u.special;
}

delete_own-HasRoom :
    (id : ℕ) (d : OfficialDocument) (db : Db)
    → HasRoom d db
    → HasRoom d (delete_own_cancelled id db)
delete_own-HasRoom id d db room = record {
  fits = λ y s. omega (arith, room.fits y s, delete_own_cancelled-count-le (holds y s) id db);
  unmixed = omega (arith, room.unmixed, delete_own_cancelled-count-le mixed id db);
  special =
      Shrinks-HasUniqueLanes db (delete_own_cancelled id db) (delete_own-Shrinks id db)
        room.special;
}

module _ (env : Env) (free : NobodyLocks env) (q : Request) (city : Text) (dept : Text × ℕ)
    (db₀ : Db) (u₀ : HasUniqueNumbers db₀) where
  take_global-HasUniqueNumbers :
      (user_id : ℕ) (db : Db)
      → HasUniqueNumbers db
      → HasUniqueNumbers (committed db₀ (take_global env q user_id city dept db))
  unfolding take_global
  take_global-HasUniqueNumbers user_id db u =
      let (n, db₁) = next_global_sequence env q.year db in
      let d = global_document env q (user user_id) city dept n in
      insert_global-HasUniqueNumbers d db₀ (delete_own_cancelled q.document_id db₁) u₀ (refl, refl)
        (delete_own-HasRoom q.document_id d db₁
          (next-HasRoom env d q.year db free u refl refl refl))
        env _

  take_citizen-HasUniqueNumbers :
      (citizen_id : ℕ) (db : Db)
      → HasUniqueNumbers db
      → HasUniqueNumbers (committed db₀ (take_citizen env q citizen_id city dept db))
  unfolding take_citizen
  take_citizen-HasUniqueNumbers citizen_id db u =
      let (n, db₁) = next_global_sequence env q.year db in
      let d = global_document env q (citizen citizen_id) city dept n in
      insert_citizen-HasUniqueNumbers d db₀ db₁ u₀ (refl, refl)
        (next-HasRoom env d q.year db free u refl refl refl) _

  pub take_confirmed-HasUniqueNumbers :
      (numerator : Numerator) (db : Db)
      → HasUniqueNumbers db
      → HasUniqueNumbers (committed db₀ (take_confirmed env q numerator city dept db))
  unfolding take_confirmed
  take_confirmed-HasUniqueNumbers numerator db u =
      let (n, db₁) = next_global_sequence env q.year db in
      let d = confirmed_document env q numerator city dept n in
      insert_confirmed-HasUniqueNumbers d db₀ db₁ u₀ (refl, refl)
        (next-HasRoom env d q.year db free u refl refl refl) _

  retry_global-HasUniqueNumbers :
      (user_id : ℕ) (e : Option OfficialDocument)
      → HasUniqueNumbers (committed db₀ (retry_global env q user_id city dept db₀ e))
  retry_global-HasUniqueNumbers user_id none = take_global-HasUniqueNumbers user_id db₀ u₀
  retry_global-HasUniqueNumbers user_id (some e) =
      committed-bind db₀ HasUniqueNumbers (expired env e) _ u₀ (elim [
        | false ↦ λ _. u₀
        | true ↦ λ _.
            take_global-HasUniqueNumbers user_id (cancel_reserved q.document_id db₀)
              (cancel_reserved-HasUniqueNumbers q.document_id db₀ u₀)
      ])

  retry_citizen-HasUniqueNumbers :
      (citizen_id : ℕ) (e : Option OfficialDocument)
      → HasUniqueNumbers (committed db₀ (retry_citizen env q citizen_id city dept db₀ e))
  retry_citizen-HasUniqueNumbers citizen_id none = take_citizen-HasUniqueNumbers citizen_id db₀ u₀
  retry_citizen-HasUniqueNumbers citizen_id (some e) =
      committed-bind db₀ HasUniqueNumbers (expired env e) _ u₀ (elim [
        | false ↦ λ _. u₀
        | true ↦ λ _.
            take_citizen-HasUniqueNumbers citizen_id (cancel_reserved q.document_id db₀)
              (cancel_reserved-HasUniqueNumbers q.document_id db₀ u₀)
      ])

  pub reserve_global-HasUniqueNumbers :
      (user_id : ℕ) → HasUniqueNumbers (committed db₀ (reserve_global env q user_id city dept db₀))
  unfolding reserve_global
  reserve_global-HasUniqueNumbers user_id = retry_global-HasUniqueNumbers user_id _

  pub reserve_citizen-HasUniqueNumbers :
      (citizen_id : ℕ)
      → HasUniqueNumbers (committed db₀ (reserve_citizen env q citizen_id city dept db₀))
  unfolding reserve_citizen
  reserve_citizen-HasUniqueNumbers citizen_id = retry_citizen-HasUniqueNumbers citizen_id _
