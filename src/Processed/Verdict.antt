-- ===== src/Processed/Verdict.antt =====
-- When is_target_processed gives the green light.
use kfmon.Prelude.{
  ℕ, ◌≡◌, ◌↔◌, refl, Bool, true, false, not, Option, none, some, CString, arith, if◌then◌else◌,
}
use kfmon.Config.{WatchConfig}
use kfmon.Processed.{
  Database, has_thumbnails, check_image_row, check_image, is_target_processed, is_one,
}
use kfmon.Processed.Thumbnails.{Thumbnails, has_thumbnails_iff}

-- What the database knows of a watch's file that is processed.
pub record IsProcessed (db : Database) (w : WatchConfig) : Type 0 where
  pub opened : db.open_ok ≡ true
  pub queried : (db.exists_ok ≡ true) × (db.image_ok ≡ true)
  pub book_known : db.exists_row ≡ some 1
  pub image_id : CString
  pub image_known : db.image_row ≡ some image_id
  pub thumbnails : Thumbnails db w image_id

ladder :
    (a b c d x : Bool)
    → (if not a
        then false
        else if not b
        then false
        else if c
        then (if d then x else false)
        else false)
      ≡ true
    → (a ≡ true) × (b ≡ true) × (c ≡ true) × (d ≡ true) × (x ≡ true)
ladder true true true true true h = (refl, refl, refl, refl, refl)
ladder false b c d x h = absurd (ground arith)
ladder true false c d x h = absurd (ground arith)
ladder true true false d x h = absurd (ground arith)
ladder true true true false x h = absurd (ground arith)
ladder true true true true false h = absurd (ground arith)

is_one-eq : (o : Option ℕ) → is_one o ≡ true → o ≡ some 1
is_one-eq none h = absurd (ground arith)
is_one-eq (some n) h = ground arith

check_image_row-some :
    (db : Database) (w : WatchConfig) (o : Option CString)
    → check_image_row db w o ≡ true
    → (id : CString) × (o ≡ some id) × (has_thumbnails db w id ≡ true)
unfolding check_image_row
check_image_row-some db w none h = absurd (ground arith)
check_image_row-some db w (some id) h = (id, refl, h)

-- An icon counts as processed exactly when the queries succeed, the book and its image are in the
-- database, and the thumbnails are there: on a Kobo, or with firmware 4, all three of the image id; on
-- a Tolino with firmware 5 that of the munged path, where the variant with the dot is only looked for
-- from firmware 5.6 on. Paths of 512 bytes or more are never looked for.
pub is_target_processed_iff :
    (db : Database) (w : WatchConfig) → (is_target_processed db w ≡ true) ↔ IsProcessed db w
unfolding is_target_processed check_image
is_target_processed_iff db w = (
  (λ h.
      let (a, b, c, d, x) =
        ladder db.open_ok db.exists_ok (is_one db.exists_row) db.image_ok
          (check_image_row db w db.image_row) h in
      let (id, e, f) = check_image_row-some db w db.image_row x in
      record {
        opened = a;
        queried = (b, d);
        book_known = is_one-eq db.exists_row c;
        image_id = id;
        image_known = e;
        thumbnails = (has_thumbnails_iff db w id).0 f;
      }),
  (λ p.
      rw (p.opened, p.queried.0, p.queried.1, p.book_known, p.image_known, check_image_row)
        ((has_thumbnails_iff db w p.image_id).1 p.thumbnails)),
)
