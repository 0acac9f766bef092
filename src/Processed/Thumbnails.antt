-- ===== src/Processed/Thumbnails.antt =====
-- When the thumbnails of an icon are there.
use kfmon.Prelude.{
  ℕ, ◌+◌, ◌<◌, ◌≤◌, ◌≡◌, ◌↔◌, ◌⊎◌, refl, Bool, true, false, not, ◌&&◌, ◌||◌, List, [], ◌∷◌, ◌++◌,
  CString, arith, Bool-cases, inl, inr, All, length, ltb, leb, if◌then◌else◌, ◌==◌,
}
use kfmon.Config.{WatchConfig}
use kfmon.Processed.{
  Database, is_present, kfmon_path_max, images_root, images_path_of, v4_path, v4_suffixes,
  count_present, check_fw_4x_thumbnails, munge, check_fw_5x_thumbnails, book_path_of,
  has_thumbnails,
}

-- A file at a path that is short enough.
pub record IsFile (exists : CString → Bool) (path : CString) : Type 0 where
  pub short : length path < kfmon_path_max
  pub there : exists path ≡ true

is_present_iff :
    (exists : CString → Bool) (path : CString)
    → (is_present exists path ≡ true) ↔ IsFile exists path
unfolding is_present
is_present_iff exists path = (
  (λ h. record { short = ground arith; there = ground arith }),
  (λ f. ground (arith, f.short, f.there)),
)

-- The thumbnails of an icon: the three of firmware 4, also on a Kobo with firmware 5; on a Tolino with
-- firmware 5 the one file of its munged path, with the extension's dot only from 5.6 on.
abbrev pub Thumbnails4 : (CString → Bool) → CString → Type 0
Thumbnails4 exists id =
    (length (images_path_of id) < kfmon_path_max)
    × All (λ s. IsFile exists (v4_path (images_path_of id) id s)) v4_suffixes

abbrev pub Thumbnails5 : ℕ → (CString → Bool) → CString → Type 0
Thumbnails5 fw exists book =
    ((56 ≤ fw) × IsFile exists (images_root ++ munge b'.' book))
    ⊎ IsFile exists (images_root ++ munge b'_' book)

abbrev one_if : Bool → ℕ
one_if b = if b then 1 else 0

three :
    (a b c : Bool)
    → (one_if a + (one_if b + (one_if c + 0)) ≡ 3)
      ↔ ((a ≡ true) × ((b ≡ true) × ((c ≡ true) × Unit {0})))
three true true true = (λ h. (refl, (refl, (refl, tt))), λ h. refl)
three true true false = (λ h. absurd (omega arith), λ h. absurd (ground (arith, h.1.1.0)))
three true false true = (λ h. absurd (omega arith), λ h. absurd (ground (arith, h.1.0)))
three true false false = (λ h. absurd (omega arith), λ h. absurd (ground (arith, h.1.0)))
three false true true = (λ h. absurd (omega arith), λ h. absurd (ground (arith, h.0)))
three false true false = (λ h. absurd (omega arith), λ h. absurd (ground (arith, h.0)))
three false false true = (λ h. absurd (omega arith), λ h. absurd (ground (arith, h.0)))
three false false false = (λ h. absurd (omega arith), λ h. absurd (ground (arith, h.0)))

count_present-All :
    (exists : CString → Bool) (p id : CString)
    → (count_present exists p id v4_suffixes ≡ 3)
      ↔ All (λ s. is_present exists (v4_path p id s) ≡ true) v4_suffixes
unfolding count_present
count_present-All exists p id = three _ _ _

-- A predicate on each element of a list, passed from one to another.
All-map {ℓ κ} :
    {A : Type ℓ} {P Q : A → Type κ} → ((a : A) → P a → Q a) → (xs : List A) → All P xs → All Q xs
All-map f [] h = tt
All-map f (x ∷ xs) h = (f x h.0, All-map f xs h.1)

tests_iff :
    (n : ℕ) (b : Bool) (m : ℕ) → ((if leb n m then false else b) ≡ true) ↔ ((m < n) × (b ≡ true))
tests_iff n b m = ((λ h. (ground arith, ground arith)), (λ h. ground (arith, h.0, h.1)))

check_fw_4x_iff :
    (exists : CString → Bool) (id : CString)
    → (check_fw_4x_thumbnails exists id ≡ true) ↔ Thumbnails4 exists id
unfolding check_fw_4x_thumbnails
check_fw_4x_iff exists id =
    let p = images_path_of id in
    let t = tests_iff kfmon_path_max (count_present exists p id v4_suffixes == 3) (length p) in
    (
      (λ h.
          let (short, three) = t.0 h in
          (
            short,
            All-map (λ s. (is_present_iff exists (v4_path p id s)).0) v4_suffixes
                ((count_present-All exists p id).0 (ground arith)),
          )),
      (λ h. t.1 (
        h.0,
        same (
            (count_present-All exists p id).1
              (All-map (λ s. (is_present_iff exists (v4_path p id s)).1) v4_suffixes h.1)),
      )),
    )
  where
    same : {n : ℕ} → n ≡ 3 → (n == 3) ≡ true
    same h = ground arith

either_iff :
    (fw : ℕ) (a b : Bool)
    → (((leb 56 fw && a) || b) ≡ true) ↔ (((56 ≤ fw) × (a ≡ true)) ⊎ (b ≡ true))
either_iff fw a true = ((λ h. inr refl), (λ h. ground arith))
either_iff fw true false = ((λ h. inl (ground arith, refl)), (λ h. ground arith))
either_iff fw false false = ((λ h. absurd (ground arith)), (λ h. absurd (ground arith)))

check_fw_5x_iff :
    (fw : ℕ) (exists : CString → Bool) (book : CString)
    → (check_fw_5x_thumbnails fw exists book ≡ true) ↔ Thumbnails5 fw exists book
unfolding check_fw_5x_thumbnails
check_fw_5x_iff fw exists book =
    let dotted = images_root ++ munge b'.' book in
    let plain = images_root ++ munge b'_' book in
    let t = either_iff fw (is_present exists dotted) (is_present exists plain) in
    (
      (λ h. elim (t.0 h) [
        | inl p ↦ inl (p.0, (is_present_iff exists dotted).0 p.1)
        | inr p ↦ inr ((is_present_iff exists plain).0 p)
      ]),
      (λ h. t.1 (elim h [
        | inl p ↦ inl (p.0, (is_present_iff exists dotted).1 p.1)
        | inr p ↦ inr ((is_present_iff exists plain).1 p)
      ])),
    )

-- What the device's firmware leaves for the image of a watch.
abbrev pub Thumbnails : Database → WatchConfig → CString → Type 0
Thumbnails db w id =
    (((db.fw_version < 50) ⊎ (db.is_tolino ≡ false)) × Thumbnails4 db.present id)
    ⊎ (((50 ≤ db.fw_version) × (db.is_tolino ≡ true))
        × Thumbnails5 db.fw_version db.present (book_path_of w))

device : (fw : ℕ) (tolino : Bool) → (ltb fw 50 || not tolino) ≡ true → (fw < 50) ⊎ (tolino ≡ false)
device fw false h = inr refl
device fw true h = inl (ground arith)

no_device :
    (fw : ℕ) (tolino : Bool) → (ltb fw 50 || not tolino) ≡ false → ¬ ((fw < 50) ⊎ (tolino ≡ false))
no_device fw tolino h (inl p) = ground arith
no_device fw tolino h (inr p) = ground arith

pub has_thumbnails_iff :
    (db : Database) (w : WatchConfig) (id : CString)
    → (has_thumbnails db w id ≡ true) ↔ Thumbnails db w id
unfolding has_thumbnails
has_thumbnails_iff db w id = elim (Bool-cases (ltb db.fw_version 50 || not db.is_tolino)) [
  | inl e ↦ rw e (
    (λ h. inl (device db.fw_version db.is_tolino e, (check_fw_4x_iff db.present id).0 h)),
    (λ h. elim h [
      | inl p ↦ (check_fw_4x_iff db.present id).1 p.1
      | inr p ↦ absurd (ground (arith, p.0.0, p.0.1))
    ]),
  )
  | inr e ↦ rw e (
    (λ h. inr (
      (ground arith, ground arith),
      (check_fw_5x_iff db.fw_version db.present (book_path_of w)).0 h,
    )),
    (λ h. elim h [
      | inl p ↦ absurd (no_device db.fw_version db.is_tolino e p.0)
      | inr p ↦ (check_fw_5x_iff db.fw_version db.present (book_path_of w)).1 p.1
    ]),
  )
]
